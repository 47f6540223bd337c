-- ===== src/Profile/Accepted.antt =====
-- What a profile without issues is like.
use mes_copy.Base.{
  ℕ, suc, String, ◌≡◌, ◌≢◌, refl, sym, ap, ◌∙◌, Bool, true, false, Option, none, some, List, [],
  ◌∷◌, ◌++◌, arith, ==_iff, if◌then◌else◌, length, All, inl, inr, Bool-cases, includes, str_eq,
  eq_iff,
}
use mes_copy.Profile.{Station, Routing, positive, is_not_off}
use mes_copy.Profile.Validation.{
  Seen, see, station_issues, all_issues, hierarchy_issue, hierarchy_issues, validate_profile_draft,
  includes_number, includes_sequence, add_sequence, same_number, id_issues, resource_issues,
  routing_issues, finds_cycle, parent_of, is_positive,
}
use mes_copy.Profile.Hierarchy.{HasRoot, climb-HasRoot, finds_cycle-ends}

-- No two stations have one key.
module _ {K : Type 0} (key : Station → Option K) where
  abbrev pub DistinctBy : List Station → Type 0
  DistinctBy [] = Unit
  DistinctBy (s ∷ ss) = ((k : K) → key s ≡ some k → All (λ t. key t ≢ some k) ss) × DistinctBy ss

both-nil : {A : Type 0} (xs ys : List A) → xs ++ ys ≡ [] → (xs ≡ []) × (ys ≡ [])
both-nil [] ys e = (refl, e)
both-nil (x ∷ xs) ys e = cc

station_parts :
    (s : Station) (seen : Seen)
    → station_issues s seen ≡ []
    → (resource_issues (positive s.resource_id) seen ≡ []) × (routing_issues s s.routing seen ≡ [])
unfolding station_issues id_issues resource_issues routing_issues
station_parts s seen h =
    let (first, routing) =
      both-nil (id_issues s.station_id seen ++ resource_issues (positive s.resource_id) seen)
        (routing_issues s s.routing seen) h in
    let (_, resource) =
      both-nil (id_issues s.station_id seen) (resource_issues (positive s.resource_id) seen)
        first in
    (resource, routing)

-- The keys of the first loop.
abbrev pub station_key : Station → Option String
station_key s = if str_eq s.station_id "" then none else some s.station_id

abbrev pub resource_key : Station → Option ℕ
resource_key s = positive s.resource_id

abbrev sequence_at : Option Routing → Option (Option ℕ)
sequence_at none = none
sequence_at (some r) = if is_not_off r.enabled then some r.sequence else none

abbrev pub sequence_key : Station → Option (Option ℕ)
sequence_key s = sequence_at s.routing

-- A key that a set of the loop holds makes an issue of a station that has it.
module _ {K : Type 0} (key : Station → Option K) (has : K → Seen → Bool)
    (sees : (s : Station) (seen : Seen) (k : K) → key s ≡ some k → has k (see s seen) ≡ true)
    (keeps : (s : Station) (seen : Seen) (k : K) → has k seen ≡ true → has k (see s seen) ≡ true)
    (clash : (s : Station) (seen : Seen) (k : K)
      → key s ≡ some k
      → has k seen ≡ true
      → station_issues s seen ≢ []) where
  others :
      (k : K) (ss : List Station) (seen : Seen)
      → has k seen ≡ true
      → all_issues ss seen ≡ []
      → All (λ t. key t ≢ some k) ss
  unfolding all_issues
  others k [] seen h e = tt
  others k (s ∷ ss) seen h e =
      let (here, rest) = both-nil (station_issues s seen) (all_issues ss (see s seen)) e in
      ((λ same. clash s seen k same h here), others k ss (see s seen) (keeps s seen k h) rest)

  all_issues-DistinctBy :
      (ss : List Station) (seen : Seen) → all_issues ss seen ≡ [] → DistinctBy key ss
  unfolding all_issues
  all_issues-DistinctBy [] seen e = tt
  all_issues-DistinctBy (s ∷ ss) seen e =
      let (here, rest) = both-nil (station_issues s seen) (all_issues ss (see s seen)) e in
      (
        (λ k same. others k ss (see s seen) (sees s seen k same) rest),
        all_issues-DistinctBy ss (see s seen) rest,
      )

ids-DistinctBy :
    (ss : List Station) (seen : Seen) → all_issues ss seen ≡ [] → DistinctBy station_key ss
unfolding see station_issues id_issues
ids-DistinctBy =
    all_issues-DistinctBy station_key (λ id seen. includes id seen.station_ids)
      (λ s seen id e. ground (arith, e, eq_iff s.station_id id)) (λ s seen id h. ground (arith, h))
      (λ s seen id e h none_left. ground (arith, e, h, none_left))

resources-DistinctBy :
    (ss : List Station) (seen : Seen) → all_issues ss seen ≡ [] → DistinctBy resource_key ss
unfolding see resource_issues
resources-DistinctBy =
    all_issues-DistinctBy resource_key (λ r seen. includes_number r seen.resource_ids)
      (λ s seen r e. simp e (ground (arith, ==_iff r r))) (λ s seen r h. ground (arith, h))
      (λ s seen r e h none_left.
        let same : resource_issues (some r) seen ≡ [] =
          sym (ap (λ x. resource_issues x seen) e) ∙ (station_parts s seen none_left).0 in
        ground (arith, h, same))

same_number_self : (n : Option ℕ) → same_number n n ≡ true
same_number_self none = refl
same_number_self (some n) = ground (arith, ==_iff n n)

add_sequence-sees :
    (o : Option Routing) (n : Option ℕ) (ns : List (Option ℕ))
    → sequence_at o ≡ some n
    → includes_sequence n (add_sequence o ns) ≡ true
add_sequence-sees none n ns e = cc
add_sequence-sees (some r) n ns e = elim (Bool-cases (is_not_off r.enabled)) [
  | inl on ↦
      let same : r.sequence ≡ n = ground (arith, on, e) in
      rw (on, same) (rw (same_number_self n) refl)
  | inr off ↦ elim (impossible off) [ ]
]
  where
    impossible : is_not_off r.enabled ≡ false → ⊥
    impossible off = ground (arith, off, e)

-- A station that is routed is enabled, can be routed and has a positive sequence that is new.
record IsRouted (s : Station) (n : Option ℕ) (seen : Seen) : Type 0 where
  positive : is_positive n ≡ true
  enabled : s.enabled ≡ true
  capable : includes "routing" s.capabilities ≡ true
  new : includes_sequence n seen.sequences ≡ false

routing_issues-IsRouted :
    (s : Station) (o : Option Routing) (n : Option ℕ) (seen : Seen)
    → sequence_at o ≡ some n
    → routing_issues s o seen ≡ []
    → IsRouted s n seen
unfolding routing_issues
routing_issues-IsRouted s none n seen e h = cc
routing_issues-IsRouted s (some r) n seen e h = elim (Bool-cases (is_not_off r.enabled)) [
  | inl on ↦ let same : r.sequence ≡ n = ground (arith, on, e) in rw (← same) (routed on)
  | inr off ↦ elim (impossible off) [ ]
]
  where
    impossible : is_not_off r.enabled ≡ false → ⊥
    impossible off = ground (arith, off, e)

    routed : is_not_off r.enabled ≡ true → IsRouted s r.sequence seen
    routed on = ground (arith, on, h)

sequences-DistinctBy :
    (ss : List Station) (seen : Seen) → all_issues ss seen ≡ [] → DistinctBy sequence_key ss
unfolding see
sequences-DistinctBy =
    all_issues-DistinctBy sequence_key (λ n seen. includes_sequence n seen.sequences)
      (λ s seen n e. add_sequence-sees s.routing n seen.sequences e)
      (λ s seen n h. ground (arith, h))
      (λ s seen n e h none_left.
        let routed =
          routing_issues-IsRouted s s.routing n seen e (station_parts s seen none_left).1 in
        ground (arith, h, routed.new))

-- What a station of an accepted profile is like, but for its id and its parents.
pub record IsRoutable (s : Station) (n : Option ℕ) : Type 0 where
  pub positive : is_positive n ≡ true
  pub enabled : s.enabled ≡ true
  pub capable : includes "routing" s.capabilities ≡ true

abbrev pub RoutesWell : Station → Type 0
RoutesWell s = (n : Option ℕ) → sequence_key s ≡ some n → IsRoutable s n

all_issues-RoutesWell :
    (ss : List Station) (seen : Seen) → all_issues ss seen ≡ [] → All RoutesWell ss
unfolding all_issues
all_issues-RoutesWell [] seen e = tt
all_issues-RoutesWell (s ∷ ss) seen e =
    let (here, rest) = both-nil (station_issues s seen) (all_issues ss (see s seen)) e in
    (
      (λ n key.
          let routed =
            routing_issues-IsRouted s s.routing n seen key (station_parts s seen here).1 in
          record {
            positive = routed.positive;
            enabled = routed.enabled;
            capable = routed.capable;
          }),
      all_issues-RoutesWell ss (see s seen) rest,
    )

abbrev pub EndsAbove : List Station → Station → Type 0
EndsAbove all s = (r : ℕ) → resource_key s ≡ some r → HasRoot all (parent_of s all)

finds_no_cycle :
    (all : List Station) (r : ℕ) (s : Station)
    → hierarchy_issue all (some r) s ≡ []
    → finds_cycle all r s ≡ some false
unfolding hierarchy_issue
finds_no_cycle all r s e = ground (arith, finds_cycle-ends all r s, e)

hierarchy_issues-EndsAbove :
    (all ss : List Station) → hierarchy_issues all ss ≡ [] → All (EndsAbove all) ss
unfolding hierarchy_issues finds_cycle
hierarchy_issues-EndsAbove all [] e = tt
hierarchy_issues-EndsAbove all (s ∷ ss) e =
    let (here, rest) =
      both-nil (hierarchy_issue all (positive s.resource_id) s) (hierarchy_issues all ss) e in
    (
      (λ r key.
          climb-HasRoot (suc (length all)) all (r ∷ []) (parent_of s all)
            (finds_no_cycle all r s (sym (ap (λ x. hierarchy_issue all x s) key) ∙ here))),
      hierarchy_issues-EndsAbove all ss rest,
    )

pub record IsAcceptable (ss : List Station) : Type 0 where
  pub station_ids : DistinctBy station_key ss
  pub resource_ids : DistinctBy resource_key ss
  pub sequences : DistinctBy sequence_key ss
  pub routing : All RoutesWell ss
  pub hierarchy : All (EndsAbove ss) ss

-- If the validation of a draft finds no issue, then the station ids that are not empty, the
-- positive resource ids and the sequences of the routing that is not switched off are each without
-- duplicates; a station with such a sequence is enabled and can be routed, and the sequence is
-- positive; and from every station with a positive resource id the parents come to an end.
pub validate_profile_draft-IsAcceptable :
    (ss : List Station) → validate_profile_draft ss ≡ [] → IsAcceptable ss
unfolding validate_profile_draft
validate_profile_draft-IsAcceptable ss e =
    let (all, hierarchy) = both-nil (all_issues ss _) (hierarchy_issues ss ss) e in
    record {
      station_ids = ids-DistinctBy ss _ all;
      resource_ids = resources-DistinctBy ss _ all;
      sequences = sequences-DistinctBy ss _ all;
      routing = all_issues-RoutesWell ss _ all;
      hierarchy = hierarchy_issues-EndsAbove ss ss hierarchy;
    }
