-- ===== src/Dictionary/Texts.antt =====
-- set_string of lighttable.cpp on a table that stands for a dictionary.
use lighttable.Prelude.{◌≡◌, ◌≢◌, sym, ◌∙◌, false, some, inl, inr, Bool-cases}
use lighttable.Struct.{Bytes, Key, StringSlot, Value, lt_string}
use lighttable.Lmap.Stored.{same_key, same_key_iff}
use lighttable.State.{Ptr, State}
use lighttable.Table.Valid.{IsTable, reads}
use lighttable.Strings.Owned.{Owns}
use lighttable.Strings.Update.{HoldsText}
use lighttable.Dictionary.{text, Contents, insert, Means, Apart, Represents}
use lighttable.Dictionary.Plain.{Means-kept, Means-Owns, Owns-slot}

-- What stands under the other keys.
abbrev pub Other : State → Key → (Value → (a : Ptr) → StringSlot → Type 0) → Type 0
Other s k P =
    (q : Key) (v : Value) (a : Ptr) (t : StringSlot)
    → q ≢ k
    → reads s q ≡ some v
    → v.type ≡ lt_string
    → Owns s v.v a t
    → P v a t

-- The string under one key changes: it is at `p` with its slot at `n`, which no other string uses,
-- and the other strings stay.
pub record Written (s s' : State) (k : Key) (p n : Ptr) : Type 0 where
  pub same : (q : Key) → q ≢ k → reads s' q ≡ reads s q
  pub at_key : (v : Value) → reads s' k ≡ some v → v.v ≡ p
  pub slot : (a : Ptr) (t : StringSlot) → Owns s' p a t → a ≡ n
  pub keep : Other s k (λ v a t. Owns s' v.v a t)
  pub far : Other s k (λ v a t. (v.v ≢ p) × (a ≢ n))

pub differs : (q k : Key) → q ≢ k → same_key q k ≡ false
differs q k ne = elim (Bool-cases (same_key q k)) [
  | inl same ↦ absurd (ne ((same_key_iff q k).0 same))
  | inr other ↦ other
]

pub not-same : (q k : Key) → same_key q k ≡ false → q ≢ k
not-same q k other e = cc (other, (same_key_iff q k).1 e)

module _ {s s' : State} {f : Contents} (r : Represents s f) {k : Key} {p n : Ptr}
    (w : Written s s' k p n) where
  Means-other : (q : Key) → q ≢ k → Means s' (f q) (reads s' q)
  Means-other q ne = rw (w.same q ne) (
      Means-kept s s' (f q) (reads s q) (λ v e string a t o. w.keep q v a t ne e string o)
        (r.means q))

  -- The slot that another string had.
  old :
      (q : Key) (v : Value)
      → q ≢ k
      → reads s' q ≡ some v
      → v.type ≡ lt_string
      → (a : Ptr) × (t : StringSlot) × (reads s q ≡ some v) × Owns s v.v a t
  old q v ne e string =
      let e' : reads s q ≡ some v = sym (w.same q ne) ∙ e in
      let m : Means s (f q) (some v) = rw e' at (r.means q) in
      let (a, t, o) = Means-Owns s (f q) v string m in (a, t, e', o)

  -- The changed string against another one.
  apart-changed :
      (q' : Key) (v v' : Value) (a a' : Ptr) (t t' : StringSlot)
      → q' ≢ k
      → reads s' k ≡ some v
      → reads s' q' ≡ some v'
      → v'.type ≡ lt_string
      → Owns s' v.v a t
      → Owns s' v'.v a' t'
      → (v'.v ≢ v.v) × (a' ≢ a)
  apart-changed q' v v' a a' t t' ne e e' string' o o' =
      let (b, u, there, had) = old q' v' ne e' string' in
      let at : v.v ≡ p = w.at_key v e in
      let a-n : a ≡ n = w.slot a t (rw at at o) in
      let a'-b : a' ≡ b = Owns-slot s' v'.v a' b t' u o' (w.keep q' v' b u ne there string' had) in
      let (far_p, far_n) = w.far q' v' b u ne there string' had in
      ((λ z. far_p (z ∙ at)), λ z. far_n (sym a'-b ∙ (z ∙ a-n)))

  apart-both :
      (q q' : Key) (v v' : Value) (a a' : Ptr) (t t' : StringSlot)
      → q ≢ k
      → q' ≢ k
      → q ≢ q'
      → reads s' q ≡ some v
      → reads s' q' ≡ some v'
      → v.type ≡ lt_string
      → v'.type ≡ lt_string
      → Owns s' v.v a t
      → Owns s' v'.v a' t'
      → (v.v ≢ v'.v) × (a ≢ a')
  apart-both q q' v v' a a' t t' nk nk' ne e e' string string' o o' =
      let (b, u, there, had) = old q v nk e string in
      let (b', u', there', had') = old q' v' nk' e' string' in
      let a-b : a ≡ b = Owns-slot s' v.v a b t u o (w.keep q v b u nk there string had) in
      let a'-b' : a' ≡ b' =
        Owns-slot s' v'.v a' b' t' u' o' (w.keep q' v' b' u' nk' there' string' had') in
      let (far_p, far_n) = r.apart q q' v v' b b' u u' ne there there' string string' had had' in
      (far_p, λ z. far_n (sym a-b ∙ (z ∙ a'-b')))

  Written-Apart : Apart s'
  Written-Apart q q' v v' a a' t t' ne e e' string string' o o' = elim (Bool-cases (same_key q k)) [
    | inl here ↦
        let q-k : q ≡ k = (same_key_iff q k).0 here in
        let (x, y) =
          apart-changed q' v v' a a' t t' (λ z. ne (q-k ∙ sym z)) (rw q-k at e) e' string' o o' in
        ((λ z. x (sym z)), λ z. y (sym z))
    | inr there ↦
        let nk : q ≢ k = not-same q k there in
        elim (Bool-cases (same_key q' k)) [
          | inl here' ↦
              let q'-k : q' ≡ k = (same_key_iff q' k).0 here' in
              apart-changed q v' v a' a t' t nk (rw q'-k at e') e string o' o
          | inr there' ↦
              apart-both q q' v v' a a' t t' nk (not-same q' k there') ne e e' string string' o o'
        ]
  ]

  pub Represents-Written :
      (b : Bytes) (v : Value)
      → IsTable s'.table
      → reads s' k ≡ some v
      → v.type ≡ lt_string
      → HoldsText s' v.v b
      → Represents s' (insert k (text b) f)
  Represents-Written b v quiet at_k string holds = record {
    quiet = quiet;
    means = λ q. elim (Bool-cases (same_key q k)) [
      | inl here ↦ rw (here, (same_key_iff q k).0 here, at_k) (string, holds)
      | inr there ↦ rw there (Means-other q (not-same q k there))
    ];
    apart = Written-Apart;
  }
