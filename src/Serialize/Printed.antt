-- ===== src/Serialize/Printed.antt =====
-- What serialize of lighttable.cpp writes for a table that holds a tree.
use lighttable.Prelude.{
  ℕ, zero, suc, ◌-◌, ◌*◌, ◌≡◌, refl, ◌≤◌, ◌<◌, true, false, some, List, [], ◌∷◌, ◌++◌, ◌==◌, arith,
}
use mathlib.Core.List.{append_assoc, append-nil}
use mathlib.Core.Path.{subst}
use lighttable.Struct.{Bytes, Value, TableKey}
use lighttable.State.{Ptr, Table, ok, ◌>>◌}
use lighttable.Table.Valid.{IsTable}
use lighttable.Table.Read.{Kind}
use lighttable.Keys.{size, keys, limit_of}
use lighttable.Keys.Listed.{keys-take, size-ok}
use lighttable.World.{World, entering, on}
use lighttable.World.Reading.{on-reads}
use lighttable.Serialize.{
  Printf, c_string, add, put_value, put_entries, do_serialize, serialize, print_buff, has_zero,
  get_serialed, result_line, minus_one,
}
use lighttable.Serialize.Tree.{
  Tree, Entries, nil, entry, depth, depth_entries, shown_key, shown, shown_entries, Stands,
  listed_of, IsValue, AreValues, IsTree,
}
use lighttable.Serialize.Wrote.{
  IsText, IsClean, c_string-IsText, IsText-append, wrote, add-wrote, put-wrote, overwritten,
  clipped_nil, get-Under, get_string-Under, put_key-wrote, put_boolean-wrote,
}

module _ (printf : Printf) (clean : IsClean printf) (tmp : Value) (w : World) where
  -- Up to the loop over the keys.
  pub do_serialize-begins :
      (d : ℕ) (p : Ptr) (st : Stands w.memory p) (x : Bytes)
      → do_serialize printf tmp (suc d) p (wrote w x)
        ≡ (put_entries printf tmp (do_serialize printf tmp d) p (listed_of st.this)
              >> add (b'}' ∷ []))
            (wrote w (x ++ b'{' ∷ []))
  unfolding do_serialize c_string
  do_serialize-begins d p st x =
      let s = entering w st.this in
      let room = st.this.map.size * 7 in
      let cap : on p size (wrote w x) ≡ ok room (wrote w x) =
        on-reads (wrote w x) p st.this st.there size room (size-ok s st.quiet st.small) in
      let e : limit_of room ≡ room - 1 = omega (arith, st.quiet.map.pos) in
      let ks : on p (keys room) (wrote w x) ≡ ok (listed_of st.this) (wrote w x) =
        on-reads (wrote w x) p st.this st.there (keys room) (listed_of st.this)
          (rw (← e) (keys-take s room st.quiet (omega (arith, st.quiet.map.pos)))) in
      rw (cap, ks, add-wrote w x (b'{' ∷ [])) refl

  do_serialize-body :
      (d : ℕ) (p : Ptr) (st : Stands w.memory p) (text : Bytes)
      → ((rest : List TableKey) (x : Bytes)
          → put_entries printf tmp
              (do_serialize printf tmp d)
              p
              (listed_of st.this ++ rest)
              (wrote w x)
            ≡ put_entries printf tmp (do_serialize printf tmp d) p rest (wrote w (x ++ text)))
      → (x : Bytes)
      → do_serialize printf tmp (suc d) p (wrote w x)
        ≡ ok tt (wrote w (x ++ (b'{' ∷ text ++ b'}' ∷ [])))
  unfolding c_string put_entries
  do_serialize-body d p st text loop x =
      let ks = listed_of st.this in
      let x₁ = x ++ b'{' ∷ [] in
      let whole : put_entries printf tmp (do_serialize printf tmp d) p ks (wrote w x₁)
          ≡ ok tt (wrote w (x₁ ++ text)) =
        subst
          (λ l.
            put_entries printf tmp (do_serialize printf tmp d) p l (wrote w x₁)
            ≡ ok tt (wrote w (x₁ ++ text)))
          (append-nil ks) (loop [] x₁) in
      rw
        (
          do_serialize-begins d p st x,
          whole,
          add-wrote w ((x ++ b'{' ∷ []) ++ text) (b'}' ∷ []),
          append_assoc (x ++ b'{' ∷ []) text (b'}' ∷ []),
          append_assoc x (b'{' ∷ []) (text ++ b'}' ∷ []),
        )
        refl

  -- No listed key of a tree has the type -1.
  typed-IsValue :
      (w : World) (t : Table) (k : TableKey) (v : Tree)
      → IsValue printf w.memory t k v
      → (k.type == minus_one) ≡ false
  unfolding IsValue
  typed-IsValue w t k (Tree.number n) (u, e, fits) = rw u.key_type refl
  typed-IsValue w t k (Tree.boolean b) (u, e) = rw u.key_type refl
  typed-IsValue w t k (Tree.text s) (u, h, fits) = rw u.key_type refl
  typed-IsValue w t k (Tree.table es) (u, st, vs) = rw u.key_type refl

  mutual
    unfolding depth IsValue shown put_value put_entries c_string

    put_value-shown :
        (d : ℕ) (v : Tree) (p : Ptr) (t : Table) (k : TableKey)
        → depth v ≤ d
        → w.memory.tables p ≡ some t
        → IsTable t
        → IsValue printf w.memory t k v
        → (x : Bytes)
        → put_value printf tmp (do_serialize printf tmp d) p k (wrote w x)
          ≡ ok tt (wrote w (x ++ shown printf v))
    put_value-shown d (Tree.number n) p t k le there quiet (u, e, fits) x =
        rw (u.key_type, get-Under (wrote w x) p t there quiet tmp k Kind.number u, e)
          (put-wrote w x (printf.show_double n) fits (clean.double n))
    put_value-shown d (Tree.boolean b) p t k le there quiet (u, e) x =
        rw (u.key_type, get-Under (wrote w x) p t there quiet tmp k Kind.boolean u, e)
          (put_boolean-wrote printf clean tmp w x b)
    put_value-shown d (Tree.text s) p t k le there quiet (u, h, fits) x =
        let is_text : IsText s = rw (← h.reads_as) (c_string-IsText h.content.buf) in
        rw
          (
            u.key_type,
            get_string-Under (wrote w x) p t there quiet tmp k u s h,
            h.there,
            h.reads_as,
          )
          (put-wrote w x (shown printf (Tree.text s)) fits
            (refl, IsText-append s (b'"' ∷ []) is_text (refl, tt)))
    put_value-shown zero (Tree.table es) p t k le there quiet (u, st, vs) x = absurd (omega arith)
    put_value-shown (suc d) (Tree.table es) p t k le there quiet (u, st, vs) x =
        rw (u.key_type, get-Under (wrote w x) p t there quiet tmp k Kind.ud u)
          (do_serialize-body d u.value.v st (shown_entries printf es)
            (put_entries-before d es u.value.v st.this (listed_of st.this) (omega arith) st.there
              st.quiet vs)
            x)

    -- The keys before others.
    pub put_entries-before :
        (d : ℕ) (es : Entries) (p : Ptr) (t : Table) (ks : List TableKey)
        → depth_entries es ≤ d
        → w.memory.tables p ≡ some t
        → IsTable t
        → AreValues printf w.memory t ks es
        → (rest : List TableKey) (x : Bytes)
        → put_entries printf tmp (do_serialize printf tmp d) p (ks ++ rest) (wrote w x)
          ≡ put_entries printf tmp
              (do_serialize printf tmp d)
              p
              rest
              (wrote w (x ++ shown_entries printf es))
    put_entries-before d nil p t [] le there quiet vs rest x = rw (append-nil x) refl
    put_entries-before d nil p t (k ∷ ks) le there quiet vs rest x = elim vs [ ]
    put_entries-before d (entry k v es) p t [] le there quiet vs rest x = elim vs [ ]
    put_entries-before d (entry k' v es) p t (k ∷ ks) le there quiet (e, fits, is, vs) rest x =
        let typed = typed-IsValue w t k' v is in
        let x₁ = x ++ shown_key printf k'.key k'.sz_idx in
        let x₂ = x₁ ++ shown printf v in
        rw
          (
            e,
            put_key-wrote printf clean tmp w x k'.key k'.sz_idx k'.type typed fits,
            put_value-shown d v p t k' (omega arith) there quiet is x₁,
            typed,
            add-wrote w x₂ (b',' ∷ b'\n' ∷ []),
            put_entries-before d es p t ks (omega arith) there quiet vs rest
                (x₂ ++ b',' ∷ b'\n' ∷ []),
            append_assoc x₂ (b',' ∷ b'\n' ∷ []) (shown_entries printf es),
            append_assoc x₁ (shown printf v) (b',' ∷ b'\n' ∷ shown_entries printf es),
            append_assoc x (shown_key printf k'.key k'.sz_idx)
                (shown printf v ++ b',' ∷ b'\n' ∷ shown_entries printf es),
          )
          refl

module _ (printf : Printf) (clean : IsClean printf) (tmp : Value) (p : Ptr) (es : Entries) where
  do_serialize-shown :
      (w : World) (d : ℕ)
      → IsTree printf w.memory p es
      → depth_entries es < d
      → (x : Bytes)
      → do_serialize printf tmp d p (wrote w x)
        ≡ ok tt (wrote w (x ++ (b'{' ∷ shown_entries printf es ++ b'}' ∷ [])))
  do_serialize-shown w zero (st, vs) le x = absurd (omega arith)
  do_serialize-shown w (suc d) (st, vs) le x =
      do_serialize-body printf clean tmp w d p st (shown_entries printf es)
        (put_entries-before printf clean tmp w d es p st.this (listed_of st.this) (omega arith)
          st.there st.quiet vs)
        x

  -- For a table that holds a tree of numbers, booleans, strings and tables, each of them one that
  -- no method works on with 7 times as many slots as an int can hold at most, each string with an
  -- lstring and slot of its own, each piece of text shorter than the 1000 bytes of temp, no zero
  -- byte in the text of a number, and a zero byte somewhere in the buffer once the text of the tree
  -- stands at its start, as far as it has room: serialize, on a stack deeper than the tree, returns 0,
  -- leaves all tables and strings as they were, writes the text of the tree, as far as the buffer
  -- has room, over the start of the buffer, where the rest of the buffer keeps what it held, and
  -- prints the buffer up to its first zero byte.
  pub serialize-shown :
      (w : World) (d : ℕ)
      → IsTree printf w.memory p es
      → depth_entries es < d
      → has_zero
          (overwritten (get_serialed w.serialed) (b'{' ∷ shown_entries printf es ++ b'}' ∷ []))
        ≡ true
      → let buff =
          overwritten (get_serialed w.serialed) (b'{' ∷ shown_entries printf es ++ b'}' ∷ []) in
        (w' : World) × (serialize printf tmp d p w ≡ ok 0 w')
        × (w'.memory ≡ w.memory)
        × (get_serialed w'.serialed ≡ buff)
        × (w'.printed ≡ w.printed ++ result_line buff)
  unfolding serialize print_buff
  serialize-shown w d is le zero_byte =
      let text = b'{' ∷ shown_entries printf es ++ b'}' ∷ [] in
      let w₀ : World = record w {
        serialed = record { written = []; before = get_serialed w.serialed };
      } in
      let run = do_serialize-shown w₀ d is le [] in
      let w₁ = wrote w₀ text in
      (
        record w₁ { printed = w.printed ++ result_line (get_serialed w₁.serialed) },
        rw (rw clipped_nil at run, zero_byte) refl,
        refl,
        refl,
        refl,
      )
