-- ===== src/Table/Types.antt =====
-- The type of an entry of a table in lighttable.cpp under calls of set_number, set_boolean and set_ud.
use lighttable.Prelude.{
  ℕ, ◌*◌, ◌^◌, ◌≡◌, refl, ◌≤◌, Option, none, some, List, [], ◌∷◌, ◌==◌, if◌then◌else◌, length,
  Bool-cases, inl, inr, ◌∙◌,
}
use lighttable.Prelude.Word.{doubled, halved}
use lighttable.Struct.{Key, Value, lt_nil}
use lighttable.Lmap.Stored.{IsKey, same_key}
use lighttable.Lmap.Chain.{replaced}
use lighttable.State.{State, ok, Method, pure, ◌>>=◌}
use lighttable.Table.Valid.{IsTable, reads}
use lighttable.Table.Read.{Kind, number, boolean, ud, tag}
use lighttable.Table.Insert.{Inserted, Inserted-size}
use lighttable.Table.Write.{put, built, outcome, put-Sets}

-- A call of a setter.
pub record Call : Type 0 where
  pub kind : Kind
  pub key : Key
  pub value : ℕ

-- Calls in a row, with what they return.
unfoldable pub puts : Value → List Call → Method (List ℕ)
puts tmp [] = pure []
puts tmp (c ∷ cs) = do code ← put c.kind c.key c.value tmp; codes ← puts tmp cs; pure (code ∷ codes)

-- The types of the keys alone: a key without a type takes that of the first call, and keeps it.
abbrev pub Types : Type 0
Types = Key → Option ℕ

abbrev pub or_else : Option ℕ → ℕ → Option ℕ
or_else none t = some t
or_else (some u) t = some u

abbrev pub settle : Types → Call → Types
settle ts c q = if same_key q c.key then or_else (ts c.key) (tag c.kind) else ts q

unfoldable pub settled : Types → List Call → Types
settled ts [] = ts
settled ts (c ∷ cs) = settled (settle ts c) cs

-- What a call returns, by the type of its key.
abbrev pub answer : Option ℕ → ℕ → ℕ
answer none wanted = 0
answer (some t) wanted = if t == lt_nil then 0 else (if t == wanted then 0 else 1)

unfoldable pub answers : Types → List Call → List ℕ
answers ts [] = []
answers ts (c ∷ cs) = answer (ts c.key) (tag c.kind) ∷ answers (settle ts c) cs

abbrev pub type? : Option Value → Option ℕ
type? none = none
type? (some v) = some v.type

abbrev pub AreKeys : List Call → Type 0
AreKeys [] = Unit {0}
AreKeys (c ∷ cs) = IsKey c.key × AreKeys cs

outcome-answer : (o : Option Value) (wanted : ℕ) → outcome o wanted ≡ answer (type? o) wanted
outcome-answer none wanted = refl
outcome-answer (some v) wanted = refl

replaced-type :
    (o : Option Value) (kind : Kind) (w : ℕ) (tmp : Value)
    → type? (some (replaced o (built kind w tmp))) ≡ or_else (type? o) (tag kind)
unfolding replaced
replaced-type none number w tmp = refl
replaced-type none boolean w tmp = refl
replaced-type none ud w tmp = refl
replaced-type (some v) kind w tmp = refl

settled-same :
    (ts us : Types) (cs : List Call)
    → ((q : Key) → ts q ≡ us q)
    → (q : Key) → settled ts cs q ≡ settled us cs q
unfolding settled
settled-same ts us [] same q = same q
settled-same ts us (c ∷ cs) same q =
    settled-same (settle ts c) (settle us c) cs (λ r. rw (same c.key, same r) refl) q

answers-same :
    (ts us : Types) (cs : List Call) → ((q : Key) → ts q ≡ us q) → answers ts cs ≡ answers us cs
unfolding answers
answers-same ts us [] same = refl
answers-same ts us (c ∷ cs) same =
    rw (same c.key, answers-same (settle ts c) (settle us c) cs (λ r. rw (same c.key, same r) refl))
      refl

-- The types after a call.
Inserted-settle :
    (s s' : State) (c : Call) (tmp : Value)
    → Inserted s c.key (built c.kind c.value tmp) s'
    → (q : Key) → type? (reads s' q) ≡ settle (λ r. type? (reads s r)) c q
Inserted-settle s s' c tmp is q = elim (Bool-cases (same_key q c.key)) [
  | inl same ↦ rw (is.reads_as q, same) (replaced-type (reads s c.key) c.kind c.value tmp)
  | inr other ↦ rw (is.reads_as q, other) refl
]

-- On a table that no method works on, any calls of set_number, set_boolean and set_ud in a row, with
-- keys that an int can hold and with at most 2^30 slots once the size is doubled for each call, all
-- return: each returns 0 where its key had no type, the type nil or the setter's, and 1 where it had
-- another, and afterwards no method works on the table and every key has the type that it had at
-- first, or else that of the first call that named it: no later call changes it.
pub puts-settled :
    (s : State) (cs : List Call) (tmp : Value)
    → IsTable s.table
    → AreKeys cs
    → s.table.map.size * 2 ^ length cs ≤ 2 ^ 30
    → (s' : State) × (puts tmp cs s ≡ ok (answers (λ q. type? (reads s q)) cs) s')
      × IsTable s'.table
      × ((q : Key) → type? (reads s' q) ≡ settled (λ r. type? (reads s r)) cs q)
unfolding puts answers settled
puts-settled s [] tmp quiet keys small = (s, refl, quiet, λ q. refl)
puts-settled s (c ∷ cs) tmp quiet (key, keys) small =
    let room = halved s.table.map.size (length cs) quiet.map.pos small in
    let (s₁, run, is) = put-Sets s quiet c.key key room c.kind c.value tmp in
    let types = Inserted-settle s s₁ c tmp is in
    let (s', run', quiet', end) =
      puts-settled s₁ cs tmp is.quiet keys
        (doubled s₁.table.map.size s.table.map.size (length cs) (Inserted-size is) small) in
    let now = λ (q : Key). type? (reads s₁ q) in
    let then' = settle (λ r. type? (reads s r)) c in
    (
      s',
      rw (run, run', answers-same now then' cs types, outcome-answer (reads s c.key) (tag c.kind))
          refl,
      quiet',
      λ q. end q ∙ settled-same now then' cs types q,
    )
