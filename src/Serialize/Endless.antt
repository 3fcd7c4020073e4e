-- ===== src/Serialize/Endless.antt =====
-- serialize of lighttable.cpp on tables that hold each other in a circle.
use lighttable.Prelude.{
  false, ◌==◌, ℕ, zero, suc, ◌≡◌, refl, ◌<◌, List, [], ◌∷◌, ◌++◌, length, arith,
}
use lighttable.Struct.{Bytes, Value, TableKey, lt_ud}
use lighttable.State.{Ptr, fault, stack_overflow}
use lighttable.Table.Read.{Kind}
use lighttable.World.{World, Memory}
use lighttable.Serialize.{
  Printf, put_value, put_entries, do_serialize, serialize, get_serialed, temp_size, minus_one,
}
use lighttable.Serialize.Tree.{
  Entries, depth, depth_entries, shown_key, shown_entries, Under, Stands, listed_of, AreValues,
}
use lighttable.Serialize.Wrote.{IsClean, wrote, get-Under, put_key-wrote, clipped_nil}
use lighttable.Serialize.Printed.{put_entries-before, do_serialize-begins}

-- At the address stands a table that holds the address of a table of `C`, under a key that is listed
-- after numbers, booleans and strings.
pub record Onward (printf : Printf) (m : Memory) (C : Ptr → Type 0) (p : Ptr) : Type 0 where
  pub stands : Stands m p
  pub before : List TableKey
  pub es : Entries
  pub flat : depth_entries es ≡ 0
  pub values : AreValues printf m stands.this before es
  pub key : TableKey
  pub fits : length (shown_key printf key.key key.sz_idx) < temp_size
  pub under : Under stands.this key lt_ud
  pub next : C under.value.v
  pub after : List TableKey
  pub listed : listed_of stands.this ≡ before ++ key ∷ after

module _ (printf : Printf) (clean : IsClean printf) (tmp : Value) (w : World) where
  do_serialize-overflow :
      (C : Ptr → Type 0)
      → ((p : Ptr) → C p → Onward printf w.memory C p)
      → (d : ℕ) (p : Ptr) (x : Bytes) → C p
      → do_serialize printf tmp d p (wrote w x) ≡ fault stack_overflow
  unfolding do_serialize put_entries put_value
  do_serialize-overflow C onward zero p x c = refl
  do_serialize-overflow C onward (suc d) p x c =
      let o = onward p c in
      let k = o.key in
      let t = o.stands.this in
      let x₁ = x ++ b'{' ∷ [] in
      let x₂ = x₁ ++ shown_entries printf o.es in
      let x₃ = x₂ ++ shown_key printf k.key k.sz_idx in
      let typed : (k.type == minus_one) ≡ false = rw o.under.key_type refl in
      let back = do_serialize-overflow C onward d o.under.value.v x₃ o.next in
      rw
        (
          do_serialize-begins printf clean tmp w d p o.stands x,
          o.listed,
          put_entries-before printf clean tmp w d o.es p t o.before (omega (arith, o.flat))
              o.stands.there o.stands.quiet o.values (k ∷ o.after) x₁,
          put_key-wrote printf clean tmp w x₂ k.key k.sz_idx k.type typed o.fits,
          o.under.key_type,
          get-Under (wrote w x₃) p t o.stands.there o.stands.quiet tmp k Kind.ud o.under,
          back,
        )
        refl

-- Where each table of a set has a listed key, after keys of numbers, booleans and strings, that holds
-- the address of a table of the set, as where a table holds its own address: serialize of any of them
-- overflows the stack, however deep it is. The tables are ones that no method works
-- on with 7 times as many slots as an int can hold at most, each string listed before such a key has
-- an lstring and slot of its own, each piece of text is shorter than the 1000 bytes of temp, and no
-- zero byte stands in the text of a number.
pub serialize-overflow :
    (printf : Printf) (clean : IsClean printf) (tmp : Value) (w : World) (C : Ptr → Type 0)
    → ((p : Ptr) → C p → Onward printf w.memory C p)
    → (p : Ptr) (depth : ℕ) → C p
    → serialize printf tmp depth p w ≡ fault stack_overflow
unfolding serialize
serialize-overflow printf clean tmp w C onward p depth c =
    let w₀ : World = record w {
      serialed = record { written = []; before = get_serialed w.serialed };
    } in
    let run = do_serialize-overflow printf clean tmp w₀ C onward depth p [] c in
    rw (rw clipped_nil at run) refl
