-- ===== src/Serialize/Wrote.antt =====
-- The texts that serialize of lighttable.cpp adds to its buffer, and what it reads from a table.
use lighttable.Prelude.{
  ℕ, zero, suc, ◌≡◌, refl, ◌≤◌, ◌<◌, true, false, Option, none, some, [], ◌∷◌, ◌++◌, ltb, ◌==◌,
  length, take, drop, arith, ap, Bool-cases, inl, inr,
}
use mathlib.Core.List.{append_assoc}
use lighttable.Struct.{Bytes, Value, TableKey, lt_string}
use lighttable.State.{Ptr, Table, ok}
use lighttable.Table.Valid.{IsTable}
use lighttable.Table.Read.{Kind, tag, get, as_read, typed-ok, get-typed}
use lighttable.Strings.{get_string}
use lighttable.Strings.Owned.{Owns}
use lighttable.Strings.Text.{get_string-ok}
use lighttable.Keys.Found.{listed_key}
use lighttable.World.{World, entering, on}
use lighttable.World.Reading.{on-same, on-reads}
use lighttable.Serialize.{
  Printf, c_string, add, put, buf_size, temp_size, show_boolean, minus_one, put_key,
}
use lighttable.Serialize.Bounds.{add_string_to_buff-bounded}
use lighttable.Serialize.Tree.{shown_key, Under, HasText}

-- A text without zero bytes.
abbrev pub IsText : Bytes → Type 0
IsText [] = Unit
IsText (c ∷ a) = ((c == 0) ≡ false) × IsText a

-- The texts of numbers are printed whole.
pub record IsClean (printf : Printf) : Type 0 where
  pub int : (i : ℕ) → IsText (printf.show_int i)
  pub double : (d : ℕ) → IsText (printf.show_double d)

pub c_string-IsText : (a : Bytes) → IsText (c_string a)
unfolding c_string
c_string-IsText [] = tt
c_string-IsText (c ∷ a) = elim (Bool-cases (c == 0)) [
  | inl ended ↦ rw ended tt
  | inr more ↦ rw more (more, c_string-IsText a)
]

pub IsText-append : (a b : Bytes) → IsText a → IsText b → IsText (a ++ b)
IsText-append [] b h k = k
IsText-append (c ∷ a) b (e, h) k = (e, IsText-append a b h k)

c_string_whole : (a : Bytes) → IsText a → c_string a ≡ a
unfolding c_string
c_string_whole [] h = refl
c_string_whole (c ∷ a) (e, h) = rw (e, c_string_whole a h) refl

take-take-append : (n : ℕ) (a b : Bytes) → take n (take n a ++ b) ≡ take n (a ++ b)
take-take-append zero a b = refl
take-take-append (suc n) [] b = refl
take-take-append (suc n) (x ∷ a) b = ap (λ r. x ∷ r) (take-take-append n a b)

-- As much as the buffer has room for.
unfoldable pub clipped : Bytes → Bytes
clipped b = take buf_size b

-- The world once `x` has been written, as far as there is room.
abbrev pub wrote : World → Bytes → World
wrote w x = record w {
  serialed = record w.serialed { written = clipped (w.serialed.written ++ x) };
}

length-take-le : (n : ℕ) (a : Bytes) → length (take n a) ≤ n
length-take-le zero a = omega arith
length-take-le (suc n) [] = omega arith
length-take-le (suc n) (x ∷ a) = omega (arith, length-take-le n a)

pub add-wrote :
    (w : World) (x str : Bytes) → add str (wrote w x) ≡ ok tt (wrote w (x ++ c_string str))
unfolding add clipped
add-wrote w x str =
    let a = w.serialed.written ++ x in
    let (e, _) = add_string_to_buff-bounded str (take buf_size a) (length-take-le buf_size a) in
    rw
      (
        e,
        take-take-append buf_size a (c_string str),
        append_assoc w.serialed.written x (c_string str),
      )
      refl

pub put-wrote :
    (w : World) (x text : Bytes)
    → length text < temp_size
    → IsText text
    → put text (wrote w x) ≡ ok tt (wrote w (x ++ text))
unfolding put
put-wrote w x text fits is =
    let room : ltb (length text) temp_size ≡ true = ground arith in
    rw (room, add-wrote w x text, c_string_whole text is) refl

module _ (w : World) (p : Ptr) (t : Table) (there : w.memory.tables p ≡ some t) (quiet : IsTable t)
    (tmp : Value) (k : TableKey) where
  pub get-Under :
      (kind : Kind) (u : Under t k (tag kind))
      → on p (get kind (listed_key k) tmp) w ≡ ok (as_read kind u.value.v) w
  get-Under kind u =
      let s = entering w t in
      on-reads w p t there (get kind (listed_key k) tmp) (as_read kind u.value.v) (
        rw (get-typed s quiet (listed_key k) tmp kind, u.there)
          (typed-ok s u.value (tag kind) (as_read kind) u.value_type))

  pub get_string-Under :
      (u : Under t k lt_string) (text : Bytes) (h : HasText w.memory u.value.v text)
      → on p (get_string (listed_key k) tmp) w ≡ ok (some h.slot) w
  get_string-Under u text h =
      let s = entering w t in
      let owns : Owns s u.value.v h.slot h.content = record {
        here = h.here;
        there = h.there;
        once = h.once;
      } in
      let (s', run, same) =
        get_string-ok s quiet (listed_key k) tmp u.value h.slot h.content u.there u.value_type
          owns in
      on-same w p t there (get_string (listed_key k) tmp) (some h.slot) s' run same

-- What the buffer holds after `text` has been written over it from the start.
abbrev pub overwritten : Bytes → Bytes → Bytes
overwritten old text = clipped text ++ drop (length (clipped text)) old

pub clipped_nil : clipped [] ≡ []
unfolding clipped
clipped_nil = refl

module _ (printf : Printf) (clean : IsClean printf) (tmp : Value) (w : World) where
  shown_key-IsText : (key : Option Bytes) (sz_idx : ℕ) → IsText (shown_key printf key sz_idx)
  shown_key-IsText none sz_idx =
      (refl, (refl, IsText-append (printf.show_int _) _ (clean.int _) (refl, (refl, (refl, tt)))))
  shown_key-IsText (some key) sz_idx =
      let closing : IsText (b'"' ∷ b']' ∷ b' ' ∷ b'=' ∷ b' ' ∷ []) =
        (refl, (refl, (refl, (refl, (refl, tt))))) in
      (refl, (refl, IsText-append (c_string key) _ (c_string-IsText key) closing))

  pub put_key-wrote :
      (x : Bytes) (key : Option Bytes) (sz_idx type : ℕ)
      → (type == minus_one) ≡ false
      → length (shown_key printf key sz_idx) < temp_size
      → put_key printf tmp key sz_idx type (wrote w x)
        ≡ ok tt (wrote w (x ++ shown_key printf key sz_idx))
  put_key-wrote x none sz_idx type typed fits =
      rw (typed, put-wrote w x (shown_key printf none sz_idx) fits (shown_key-IsText none sz_idx))
        refl
  put_key-wrote x (some key) sz_idx type typed fits =
      put-wrote w x (shown_key printf (some key) sz_idx) fits (shown_key-IsText (some key) sz_idx)

  -- Room for the text of a boolean.
  pub put_boolean-wrote :
      (x : Bytes) (b : ℕ) → put (show_boolean b) (wrote w x) ≡ ok tt (wrote w (x ++ show_boolean b))
  put_boolean-wrote x b = elim (Bool-cases (b == 0)) [
    | inl is_false ↦
        rw is_false (put-wrote w x _ (omega arith) (refl, (refl, (refl, (refl, (refl, tt))))))
    | inr is_true ↦ rw is_true (put-wrote w x _ (omega arith) (refl, (refl, (refl, (refl, tt)))))
  ]
