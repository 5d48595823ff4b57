-- ===== src/Power/Engine/Preempt.antt =====
-- Which sessions the engine stops (modules/stations/power_allocation_engine.py): the newest, and no
-- more than it takes.
use ttcs_t926_k8s4_n1_csms.Base.{
  ℕ, zero, suc, ◌≤◌, ◌<◌, ◌≡◌, refl, Bool, true, false, ◌||◌, some, List, [], ◌∷◌, All, length, ltb,
  if◌then◌else◌, arith,
}
use ttcs_t926_k8s4_n1_csms.Power.Engine.{
  SessionDemand, earlier, newest, same_session, remove, min_sum, preempt,
}

-- No session of the list is newer.
abbrev pub Newest : SessionDemand → List SessionDemand → Type 0
Newest s ss = All (λ t. earlier s t ≡ false) ss

abbrev pub holds : SessionDemand → List SessionDemand → Bool
holds s [] = false
holds s (t ∷ ts) = same_session t s || holds s ts

-- The stops, one by one: while the minimum powers go over the limit, the newest session stops.
pub data Stopping (limit : ℕ)
    : List SessionDemand → List SessionDemand → List SessionDemand → Type 0 where
  enough : (ss : List SessionDemand) → min_sum ss ≤ limit → Stopping limit ss ss []
  drop :
      (ss stay stop : List SessionDemand) (s : SessionDemand)
      → limit < min_sum ss
      → holds s ss ≡ true
      → Newest s ss
      → Stopping limit (remove s ss) stay stop
      → Stopping limit ss stay (s ∷ stop)

earlier_irrefl : (s : SessionDemand) → earlier s s ≡ false
earlier_irrefl s = ground arith

-- `earlier` is the order of pairs of numbers.
earlier_trans :
    (a b c : SessionDemand) → earlier a b ≡ false → earlier b c ≡ false → earlier a c ≡ false
earlier_trans a b c h k = ground arith

earlier_asym : (a b : SessionDemand) → earlier a b ≡ true → earlier b a ≡ false
earlier_asym a b h = ground arith

newest-Newest : (s : SessionDemand) (ss : List SessionDemand) → Newest (newest s ss) (s ∷ ss)
newest-Newest s [] = (earlier_irrefl s, tt)
newest-Newest s (t ∷ ts) = go (newest-Newest s ts) (newest-Newest t ts) (earlier s t) refl
  where
    go :
        Newest (newest s ts) (s ∷ ts)
        → Newest (newest t ts) (t ∷ ts)
        → (c : Bool) → earlier s t ≡ c
        → Newest (newest (if c then t else s) ts) (s ∷ t ∷ ts)
    go hs ht true e = (earlier_trans (newest t ts) t s ht.0 (earlier_asym s t e), ht)
    go hs ht false e = (hs.0, (earlier_trans (newest s ts) s t hs.0 e, hs.1))

holds-newest : (s : SessionDemand) (ss : List SessionDemand) → holds (newest s ss) (s ∷ ss) ≡ true
holds-newest s [] = ground arith
holds-newest s (t ∷ ts) = ground (arith, holds-newest s ts, holds-newest t ts)

length-remove :
    (s : SessionDemand) (ss : List SessionDemand)
    → holds s ss ≡ true
    → suc (length (remove s ss)) ≡ length ss
length-remove s [] h = cc
length-remove s (t ∷ ts) h = ground (arith, length-remove s ts)

All-remove :
    (P : SessionDemand → Type 0) (s : SessionDemand) (ss : List SessionDemand)
    → All P ss
    → All P (remove s ss)
All-remove P s [] a = tt
All-remove P s (t ∷ ts) (h, a) = go (same_session t s) (All-remove P s ts a)
  where
    go : (c : Bool) → All P (remove s ts) → All P (if c then ts else t ∷ remove s ts)
    go true ih = a
    go false ih = (h, ih)

pub All-stay :
    (P : SessionDemand → Type 0) (limit : ℕ) (ss stay stop : List SessionDemand)
    → Stopping limit ss stay stop
    → All P ss
    → All P stay
All-stay P limit ss stay stop (enough _ l) a = a
All-stay P limit ss stay stop (drop _ _ rest s l h n k) a =
    All-stay P limit (remove s ss) stay rest k (All-remove P s ss a)

-- The result of the loop and what it satisfies.
pub record Preempted (limit fuel : ℕ) (ss : List SessionDemand) : Type 0 where
  pub stay : List SessionDemand
  pub stop : List SessionDemand
  pub is : preempt fuel limit ss ≡ some (stay, stop)
  pub stopping : Stopping limit ss stay stop

-- One unit of fuel for each session is enough.
pub preempt-Stopping :
    (limit fuel : ℕ) (ss : List SessionDemand) → length ss ≤ fuel → Preempted limit fuel ss
unfolding preempt
preempt-Stopping limit fuel [] h = record {
  stay = [];
  stop = [];
  is = refl;
  stopping = enough [] (omega arith);
}
preempt-Stopping limit zero (s ∷ ss) h = ground arith
preempt-Stopping limit (suc fuel) (s ∷ ss) h =
    let last = newest s ss in
    let held = holds-newest s ss in
    let rest =
      preempt-Stopping limit fuel (remove last (s ∷ ss))
        (let k = length-remove last (s ∷ ss) held in omega arith) in
    go rest (ltb limit (min_sum (s ∷ ss))) refl
  where
    go :
        Preempted limit fuel (remove (newest s ss) (s ∷ ss))
        → (c : Bool) → ltb limit (min_sum (s ∷ ss)) ≡ c
        → Preempted limit (suc fuel) (s ∷ ss)
    go r true e = record {
      stay = r.stay;
      stop = newest s ss ∷ r.stop;
      is = rw (e, r.is) refl;
      stopping =
          drop (s ∷ ss) r.stay r.stop (newest s ss) (ground arith) (holds-newest s ss)
            (newest-Newest s ss) r.stopping;
    }
    go r false e = record {
      stay = s ∷ ss;
      stop = [];
      is = rw e refl;
      stopping = enough (s ∷ ss) (ground arith);
    }

pub min_sum-stay :
    (limit : ℕ) (ss stay stop : List SessionDemand)
    → Stopping limit ss stay stop
    → min_sum stay ≤ limit
min_sum-stay limit ss stay stop (enough _ l) = l
min_sum-stay limit ss stay stop (drop _ _ rest s l h n k) =
    min_sum-stay limit (remove s ss) stay rest k

-- No session that stays is newer than one that stops.
pub Newest-stop :
    (limit : ℕ) (ss stay stop : List SessionDemand)
    → Stopping limit ss stay stop
    → All (λ s. Newest s stay) stop
Newest-stop limit ss stay stop (enough _ l) = tt
Newest-stop limit ss stay stop (drop _ _ rest s l h n k) = (
  All-stay (λ t. earlier s t ≡ false) limit (remove s ss) stay rest k
      (All-remove (λ t. earlier s t ≡ false) s ss n),
  Newest-stop limit (remove s ss) stay rest k,
)
