-- ===== src/OpcUa/Laws.antt =====
-- What every setter of an address space keeps, a client's write keeps.
use mes_copy.Base.{
  String, ◌≡◌, Option, none, some, List, [], ◌∷◌, All, arith, str_eq, Bool-cases, inl, inr,
}
use mathlib.Core.Path.{subst}
use mes_copy.OpcUa.{
  Value, bool, uint, int, real, str, Access, bool_at, uint_at, int_at, real_at, str_at, date,
  date_at, Variable, set_at, set_value, lookup_node,
}

module _ {S : Type 0} (P : Variable S → Type 0) where
  pub lookup_node-All :
      (id : String) (vars : List (Variable S)) {var : Variable S}
      → All P vars
      → lookup_node id vars ≡ some var
      → P var
  unfolding lookup_node
  lookup_node-All id [] _ e = cc
  lookup_node-All id (x ∷ xs) {var} (p, ps) e = elim (Bool-cases (str_eq x.node_id id)) [
    | inl hit ↦ let same : x ≡ var = ground arith in rw (← same) p
    | inr miss ↦ lookup_node-All id xs {var = var} ps (ground arith)
  ]

module _ {S : Type 0} (R : S → S → Type 0) where
  abbrev SetterKeeps : {A : Type 0} → Option (A → S → S) → Type 0
  SetterKeeps none = Unit
  SetterKeeps {A} (some set) = (a : A) (s : S) → R s (set a s)

  abbrev AccessKeeps : Access S → Type 0
  AccessKeeps (bool_at _ set) = SetterKeeps set
  AccessKeeps (uint_at _ set) = SetterKeeps set
  AccessKeeps (int_at _ set) = SetterKeeps set
  AccessKeeps (real_at _ set) = SetterKeeps set
  AccessKeeps (str_at _ set) = SetterKeeps set
  AccessKeeps (date_at _ set) = SetterKeeps set

  abbrev pub Keeps : Variable S → Type 0
  Keeps var = AccessKeeps var.access

  kept : {f t : S} (s : S) → R s f → some f ≡ some t → R s t
  kept {f} {t} s r e = let same : f ≡ t = ground arith in subst (λ x. R s x) same r

  set_at-keeps :
      (access : Access S) (v : Value) (s t : S)
      → AccessKeeps access
      → set_at access v s ≡ some t
      → R s t
  set_at-keeps (bool_at _ (some set)) (bool b) s t k e = kept s (k b s) e
  set_at-keeps (uint_at _ (some set)) (uint n) s t k e = kept s (k n s) e
  set_at-keeps (int_at _ (some set)) (int z) s t k e = kept s (k z s) e
  set_at-keeps (real_at _ (some set)) (real z) s t k e = kept s (k z s) e
  set_at-keeps (str_at _ (some set)) (str x) s t k e = kept s (k x s) e
  set_at-keeps (date_at _ (some set)) (date x) s t k e = kept s (k x s) e
  set_at-keeps _ _ s t k e = cc

  pub set_value-keeps :
      (var : Variable S) (v : Value) (s t : S) → Keeps var → set_value var v s ≡ some t → R s t
  unfolding set_value
  set_value-keeps var v s t k e = set_at-keeps var.access v s t k e
