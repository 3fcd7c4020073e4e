-- ===== src/Lua/Convert/Kept.antt =====
-- Tables that do_convert of ltlua.cpp has made stay while others are made.
use lighttable.Prelude.{◌≡◌, ◌≢◌, refl, ap, Option, none, some, ◌==◌, arith, Bool-cases, inl, inr}
use lighttable.Struct.{StringSlot}
use lighttable.State.{Ptr, Lstring, Table}
use lighttable.World.{World, entering}
use lighttable.Dictionary.{Content, Contents, insert}
use lighttable.Dictionary.Extends.{Represents-kept}
use lighttable.Lua.Convert.Tree.{
  LuaValue, Pairs, content, table, nil, pair, StandsFor, IsContent, IsFilled,
}

-- What was in memory, tables at the addresses of `Old` only, is still there.
pub record Keeps (Old : Ptr → Type 0) (w w' : World) : Type 0 where
  pub tables :
      (p : Ptr) (t : Table) → Old p → w.memory.tables p ≡ some t → w'.memory.tables p ≡ some t
  pub lstrings :
      (p : Ptr) (l : Lstring) → w.memory.lstrings p ≡ some l → w'.memory.lstrings p ≡ some l
  pub slots : (a : Ptr) (t : StringSlot) → w.memory.slots a ≡ some t → w'.memory.slots a ≡ some t

pub Keeps-trans :
    {Old : Ptr → Type 0} {w w₁ w₂ : World} → Keeps Old w w₁ → Keeps Old w₁ w₂ → Keeps Old w w₂
Keeps-trans a b = record {
  tables = λ p t old e. b.tables p t old (a.tables p t old e);
  lstrings = λ p l e. b.lstrings p l (a.lstrings p l e);
  slots = λ q t e. b.slots q t (a.slots q t e);
}

pub Keeps-narrow :
    {Old Old' : Ptr → Type 0} {w w' : World}
    → ((p : Ptr) → Old' p → Old p)
    → Keeps Old w w'
    → Keeps Old' w w'
Keeps-narrow within k = record {
  tables = λ p t old e. k.tables p t (within p old) e;
  lstrings = k.lstrings;
  slots = k.slots;
}

-- No table is at the address.
abbrev pub Absent : World → Ptr → Type 0
Absent w p = w.memory.tables p ≡ none

-- Where nothing is once a table at `p` has changed, there was nothing.
pub Absent-Keeps :
    (w w' : World) (p : Ptr) (t : Table) (x : Ptr)
    → w'.memory.tables p ≡ some t
    → Keeps (λ q. q ≢ p) w w'
    → Absent w' x
    → Absent w x
Absent-Keeps w w' p t x there keeps absent = before (w.memory.tables x) refl
  where
    before : (o : Option Table) → w.memory.tables x ≡ o → Absent w x
    before none e = e
    before (some u) e = elim (Bool-cases (x == p)) [
      | inl is ↦ let same : x ≡ p = ground arith in cc (ap w'.memory.tables same, there, absent)
      | inr not ↦ let ne : x ≢ p = ground arith in cc (keeps.tables x u ne e, absent)
    ]

module _ (New New' : Ptr → Type 0) (wider : (p : Ptr) → New p → New' p) (w w' : World)
    (keeps : Keeps New w w') where
  pub StandsFor-Keeps :
      (p : Ptr) (f : Contents)
      → New p
      → (st : StandsFor w p f) → (st' : StandsFor w' p f) × (st'.this ≡ st.this)
  StandsFor-Keeps p f new st = (
    record {
      this = st.this;
      there = keeps.tables p st.this new st.there;
      means =
          Represents-kept (entering w st.this) (entering w' st.this) f st.means refl keeps.lstrings
            keeps.slots;
      last = st.last;
    },
    refl,
  )

  mutual
    unfolding IsContent

    pub IsContent-Keeps : (v : LuaValue) (c : Content) → IsContent New w v c → IsContent New' w' v c
    IsContent-Keeps (content c') c is = is
    IsContent-Keeps (table ps) c (p, e, new, f, st, filled) = (
      p,
      e,
      wider p new,
      f,
      (StandsFor-Keeps p f new st).0,
      IsFilled-Keeps (λ q. none) ps f filled,
    )

    pub IsFilled-Keeps :
        (f : Contents) (ps : Pairs) (g : Contents) → IsFilled New w f ps g → IsFilled New' w' f ps g
    IsFilled-Keeps f nil g is = is
    IsFilled-Keeps f (pair k v ps) g (c, is, filled) =
        (c, IsContent-Keeps v c is, IsFilled-Keeps (insert k c f) ps g filled)
