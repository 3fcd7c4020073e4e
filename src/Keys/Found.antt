-- ===== src/Keys/Found.antt =====
-- Each key that table::keys lists is found again, with the type that is listed.
use lighttable.Prelude.{
  ℕ, zero, suc, ◌-◌, ◌≤◌, ◌≡◌, refl, true, Option, none, some, List, [], ◌∷◌, ◌++◌, arith, take,
  get_or, ◌∙◌,
}
use lighttable.Struct.{Key, Value, TableKey}
use lighttable.Struct
use lighttable.Util.{hash}
use lighttable.Lmap.{Node, Lmap, key_of, find, is_in_hash}
use lighttable.Lmap.Stored.{IsNode, same_key_iff, is_in_hash-same_key}
use lighttable.State.{State}

abbrev pub All {ℓ κ} : {A : Type ℓ} → (A → Type κ) → List A → Type κ
All P [] = Unit
All P (x ∷ xs) = P x × All P xs

module _ {ℓ κ} {A : Type ℓ} where
  pub All-mono : {P Q : A → Type κ} (xs : List A) → ((x : A) → P x → Q x) → All P xs → All Q xs
  All-mono [] f h = tt
  All-mono (x ∷ xs) f (p, h) = (f x p, All-mono xs f h)

  pub All-append : (P : A → Type κ) (xs ys : List A) → All P xs → All P ys → All P (xs ++ ys)
  All-append P [] ys h k = k
  All-append P (x ∷ xs) ys (p, h) k = (p, All-append P xs ys h k)

  pub All-take : (P : A → Type κ) (n : ℕ) (xs : List A) → All P xs → All P (take n xs)
  All-take P zero xs h = tt
  All-take P (suc n) [] h = tt
  All-take P (suc n) (x ∷ xs) (p, h) = (p, All-take P n xs h)

-- The key that a listed entry gives to the getters.
abbrev pub listed_key : TableKey → Key
listed_key tk = Struct.key_of tk.key tk.sz_idx

-- The entry reads back in `f`.
abbrev pub IsFound : (Key → Option Value) → TableKey → Type 0
IsFound f tk = (v : Value) × (f (listed_key tk) ≡ some v) × (v.type ≡ tk.type)

pub find-head : (n : Node) (c : List Node) → IsNode n → find (key_of n.key) (n ∷ c) ≡ some n.v
unfolding find
find-head n c is =
    let k = key_of n.key in
    let e : is_in_hash k n ≡ true = is_in_hash-same_key k is ∙ (same_key_iff k k).1 refl in
    rw e refl

-- What the chain behind a node holds is not hidden by the node.
pub find-tail :
    (n : Node) (c : List Node) (q : Key) (v : Value)
    → IsNode n
    → find (key_of n.key) c ≡ none
    → find q c ≡ some v
    → find q (n ∷ c) ≡ some v
unfolding find
find-tail n c q v is once e =
    ground (arith, is_in_hash-same_key q is, same_key_iff q (key_of n.key))

-- As `IsFound`, in the slots from `i` on.
FoundFrom : ℕ → ℕ → List (List Node) → TableKey → Type 0
FoundFrom size i cs tk =
    (v : Value) × (i ≤ hash (listed_key tk) size)
    × (find (listed_key tk) (get_or cs (hash (listed_key tk) size - i) []) ≡ some v)
    × (v.type ≡ tk.type)
