-- ===== src/Handshake/Counts.antt =====
-- What is counted along a run of the handshake: answers, calls that owe one, and failures
-- (src/opcua/stmes-handshake.service.ts).
use mes_copy.Base.{
  ℕ, zero, suc, ◌+◌, ◌≡◌, ◌≢◌, refl, ap, Bool, true, false, not, ◌&&◌, Option, none, some, List, [],
  ◌∷◌, ◌++◌, arith, ◌==◌, if◌then◌else◌, inl, inr, Bool-cases, ==_iff, count, modify, get_elem?,
}
use mes_copy.Mes.{Profile}
use mes_copy.Handshake.{Service, Task, Reply, Stage, Written, has, without}
use mes_copy.Handshake.Calls.{advance, move, Action, asks, acknowledges, resumes, act}
use mes_copy.Handshake.Answers.{weight, is_owing, is_locking, is_late, is_unreported, is_for}

-- What has been written to the resource.
abbrev pub answers : ℕ → Service → ℕ
answers r st = count (is_for r) st.written

-- What a call counts for the resource.
abbrev pub own : (Stage → Bool) → ℕ → Task → ℕ
own f r t = if t.resource_id == r then weight (f t.stage) else 0

abbrev pub total : (Stage → Bool) → ℕ → List Task → ℕ
total f r [] = 0
total f r (t ∷ ts) = own f r t + total f r ts

-- The calls of `dispatch` for the resource that have not answered, and those of `acknowledge` that
-- have not come to their end.
abbrev pub owing : ℕ → Service → ℕ
owing r st = total is_owing r st.tasks

abbrev pub locking : ℕ → Service → ℕ
locking r st = total is_locking r st.tasks

abbrev pub locked : ℕ → Service → ℕ
locked r st = weight (has r st.processing)

abbrev pub late_at : ℕ → Reply → Option Task → ℕ
late_at r reply none = 0
late_at r reply (some t) = own (is_late reply) r t

abbrev pub unreported_at : Profile → ℕ → Reply → Service → Option Task → ℕ
unreported_at profile r reply st none = 0
unreported_at profile r reply st (some t) =
    own (λ stage. is_unreported reply stage (advance profile reply t.resource_id stage st).stage) r
      t

-- 1 for a request of the resource that is taken up.
abbrev pub taken_up : ℕ → Action → Service → ℕ
taken_up r (asks x) st = weight (x == r && not (has r st.processing))
taken_up r _ st = 0

-- 1 for a failure after the response to the resource was written.
abbrev pub late : ℕ → Action → Service → ℕ
late r (resumes reply k) st = late_at r reply (get_elem? st.tasks k)
late r _ st = 0

-- 1 for a request of the resource that stays without an answer.
abbrev pub unreported : Profile → ℕ → Action → Service → ℕ
unreported profile r (resumes reply k) st = unreported_at profile r reply st (get_elem? st.tasks k)
unreported profile r _ st = 0

-- The sum over a run.
abbrev pub tally : (Action → Service → ℕ) → Profile → List Action → Service → ℕ
tally f profile [] st = 0
tally f profile (a ∷ actions) st = f a st + tally f profile actions (act profile a st)

abbrev pub is_acknowledgement : ℕ → Action → Bool
is_acknowledgement r (acknowledges x) = x == r
is_acknowledgement r _ = false

pub count-snoc :
    (r : ℕ) (ws : List Written) (w : Written)
    → count (is_for r) (ws ++ w ∷ []) ≡ count (is_for r) ws + weight (is_for r w)
count-snoc r [] w = ground arith
count-snoc r (v ∷ ws) w = ground (arith, count-snoc r ws w)

pub is_for-other : (r x : ℕ) (w : Written) → is_for x w ≡ true → x ≢ r → is_for r w ≡ false
is_for-other r x (Written.response y answer) h apart = ground (arith, ==_iff y x, ==_iff y r)
is_for-other r x (Written.error y code) h apart = ground (arith, ==_iff y x, ==_iff y r)

pub has-without : (r x : ℕ) (xs : List ℕ) → x ≢ r → has r (without x xs) ≡ has r xs
has-without r x [] apart = refl
has-without r x (y ∷ ys) apart = elim (Bool-cases (y == x)) [
  | inl same ↦
      let miss : (y == r) ≡ false = ground (arith, ==_iff y x, ==_iff y r, same, apart) in
      rw same (rw miss (has-without r x ys apart))
  | inr other ↦ rw other (ap (λ b. if y == r then true else b) (has-without r x ys apart))
]

pub total-snoc :
    (f : Stage → Bool) (r : ℕ) (ts : List Task) (t : Task)
    → total f r (ts ++ t ∷ []) ≡ total f r ts + own f r t
total-snoc f r [] t = omega arith
total-snoc f r (u ∷ ts) t = omega (arith, total-snoc f r ts t)

pub total-move :
    (f : Stage → Bool) (r k : ℕ) (stage : Stage) (t : Task) (ts : List Task)
    → get_elem? ts k ≡ some t
    → total f r (modify k (move stage) ts) + own f r t ≡ total f r ts + own f r (move stage t)
total-move f r k stage t [] e = cc
total-move f r zero stage t (u ∷ ts) e = let same : u ≡ t = ground arith in rw same (omega arith)
total-move f r (suc k) stage t (u ∷ ts) e = omega (arith, total-move f r k stage t ts e)
