-- ===== src/Clusterer/Runs.antt =====
-- Whole runs of the clusterer (src/bin/gw_clusterer.rs): what the failures of its services cannot
-- touch.
use mathlib.Core.List.{Perm, perm_middle}
use mathlib.Core.List.Perm
use boom_gw.Base.{
  subst, Bool, ◌≡◌, refl, ◌⊎◌, inl, inr, ◌≤◌, ◌<◌, ◌∙◌, ap, sym, List, [], ◌∷◌, ◌++◌, arith, ℕ,
  zero, suc, ◌+◌, ◌-◌, ◌^◌, Bytes, some, true, false, if◌then◌else◌, length, ◌==◌, ltb, leb, ◌&&◌,
  ◌%◌, Bool-cases,
}
use boom_gw.Base.Floats.{Float, FloatLaws}
use boom_gw.Clustering.Defs.{GwEvent, SupereventCreator, SupereventUpdate}
use boom_gw.Clustering.Invariant.{WellFormed}
use boom_gw.Clustering.Process.{process-WellFormed}
use boom_gw.Clustering.Recorded.{recorded, recorded-process}
use boom_gw.Clusterer.World.{Setup, Outside, World, Returned}
use boom_gw.Clusterer.Handler.{Pipeline, after_process, process_event, emit}
use boom_gw.Clusterer.Archiving.{archive_event}
use boom_gw.Clusterer.Main.{Inbound, received, undecodable, arrived, live, buffer}
use boom_gw.Clusterer.Keeps.{Kept, Kept-refl, and_then_lem, save_and_drain-Kept}

abbrev pub take : {A : Type 0} → ℕ → List A → List A
take zero xs = []
take (suc n) [] = []
take (suc n) (x ∷ xs) = x ∷ take n xs

-- The events of the messages that decode.
abbrev pub decoded : {F C : Type 0} → List (Inbound F C) → List (GwEvent F C)
decoded [] = []
decoded (received event xml ∷ rest) = event ∷ decoded rest
decoded (_ ∷ rest) = decoded rest

-- All of them if `max` is 0, else as many as are left of `max`.
abbrev pub limited : {A : Type 0} → ℕ → ℕ → List A → List A
limited max count xs = if max == 0 then xs else take (max - count) xs

take_next :
    {A : Type 0} (m n : ℕ) (x : A) (xs : List A) → m ≡ suc n → take m (x ∷ xs) ≡ x ∷ take n xs
take_next m n x xs e = rw e refl

take_nil : {A : Type 0} (n : ℕ) → take {A = A} n [] ≡ []
take_nil zero = refl
take_nil (suc n) = refl

limited-more :
    {A : Type 0} (max count : ℕ) (x : A) (xs : List A)
    → (max ≡ 0) ⊎ (count + 1 < max)
    → limited max count (x ∷ xs) ≡ x ∷ limited max (count + 1) xs
limited-more max count x xs (inl e) = ground arith
limited-more max count x xs (inr h) =
    ground (arith, take_next (max - count) (max - (count + 1)) x xs (omega arith))

limited-last :
    {A : Type 0} (max count : ℕ) (x : A) (xs : List A)
    → max ≡ suc count
    → limited max count (x ∷ xs) ≡ x ∷ []
limited-last max count x xs e = ground (arith, take_next (max - count) 0 x xs (omega arith))

limited_nil : {A : Type 0} (max count : ℕ) → limited {A = A} max count [] ≡ []
limited_nil {A = A} max count =
    elim (max == 0) as (λ b. if◌then◌else◌ {A = List A} b [] (take (max - count) []) ≡ []) [
      | true ↦ refl
      | false ↦ take_nil (max - count)
    ]

-- The test at which the live loop stops.
abbrev stops : ℕ → ℕ → Bool
stops max count = ltb 0 max && leb max ((count + 1) % 2 ^ 64)

stops-true :
    (max count : ℕ)
    → count + 1 < 2 ^ 64
    → (max ≡ 0) ⊎ (count < max)
    → stops max count ≡ true
    → max ≡ suc count
stops-true max count n m h = ground arith

stops-false :
    (max count : ℕ)
    → count + 1 < 2 ^ 64
    → (max ≡ 0) ⊎ (count < max)
    → stops max count ≡ false
    → (max ≡ 0) ⊎ (count + 1 < max)
stops-false max count n (inl e) h = inl e
stops-false max count n (inr m) h = inr (ground arith)

perm_step :
    {A : Type 0} (x : A) (xs before middle after : List A)
    → Perm after (xs ++ middle)
    → Perm middle (x ∷ before)
    → Perm after (x ∷ (xs ++ before))
perm_step x xs before middle after h k =
    Perm.trans h (Perm.trans (Perm.append_left xs k) (perm_middle xs before))

module _ {F C : Type 0} ⦃fl : Float F⦄ (L : FloatLaws fl) (setup : Setup F)
    (out : Outside F C) where
  after_process-Kept :
      (event : GwEvent F C) (xml : Bytes) (r : SupereventCreator F C × SupereventUpdate F C)
      (w : World F C)
      → WellFormed L r.0
      → Kept L r.0 (after_process setup out event xml r w).0.creator
  after_process-Kept event xml (c, update) w wf =
      and_then_lem (λ w. Unit {0}) (λ (q : Pipeline F C). Kept L c q.creator)
        (emit setup out update (some event) w) _ _ tt (λ w u. Kept-refl L c wf)
        (λ w u. save_and_drain-Kept L setup out _ wf)

  -- What one event does, whichever calls fail.
  pub process_event-grows :
      (p : Pipeline F C) (event : GwEvent F C) (xml : Bytes)
      → WellFormed L p.creator
      → p.creator.next_seq + 1 < 2 ^ 64
      → (r : Pipeline F C × Returned) × (process_event setup out p event xml ≡ some r)
        × WellFormed L r.0.creator
        × (r.0.creator.next_seq ≤ p.creator.next_seq + 1)
        × Perm (recorded r.0.creator.superevents) (event ∷ recorded p.creator.superevents)
  unfolding process_event
  process_event-grows p event xml w room =
      let (r, e, wf, n) = process-WellFormed L p.creator event w room in
      let w1 = archive_event setup out event p.world in
      let k = after_process-Kept event xml r w1 wf in
      (
        after_process setup out event xml r w1,
        rw (e, process_event) refl,
        k.well_formed,
        omega (arith, k.next_seq),
        rw (k.events) (recorded-process L p.creator event r w e),
      )

  live_from :
      (max count : ℕ) (p : Pipeline F C) (inbound : List (Inbound F C))
      → WellFormed L p.creator
      → p.creator.next_seq + length inbound < 2 ^ 64
      → count + length inbound < 2 ^ 64
      → (max ≡ 0) ⊎ (count < max)
      → (p' : Pipeline F C) × (live setup out max count p inbound ≡ some p')
        × WellFormed L p'.creator
        × Perm
            (recorded p'.creator.superevents)
            (limited max count (decoded inbound) ++ recorded p.creator.superevents)
  unfolding live
  live_from max count p [] w room n m = (p, refl, w, rw (limited_nil max count) (Perm.refl _))
  live_from max count p (undecodable ∷ rest) w room n m =
      live_from max count p rest w (omega arith) (omega arith) m
  live_from max count p (arrived result ∷ rest) w room n m =
      live_from max count (buffer result p) rest w (omega arith) (omega arith) m
  live_from max count p (received event xml ∷ rest) w room n m =
      let ((p1, r), e, wf, n1, perm) = process_event-grows p event xml w (omega arith) in
      let small : count + 1 < 2 ^ 64 = omega arith in
      let wrap : (count + 1) % 2 ^ 64 ≡ count + 1 = omega arith in
      elim (Bool-cases (stops max count)) [
        | inl stop ↦ (
          p1,
          rw (e, live) (rw (stop, live) refl),
          wf,
          rw (limited-last max count event (decoded rest) (stops-true max count small m stop)) perm,
        )
        | inr go ↦
            let more = stops-false max count small m go in
            let (p', q, wf', perm') =
              live_from max ((count + 1) % 2 ^ 64) p1 rest wf (omega arith) (omega arith)
                (rw wrap more) in
            let rest_events = decoded rest in
            let next : limited max ((count + 1) % 2 ^ 64) rest_events
                ≡ limited max (count + 1) rest_events =
              ap (λ n. limited max n rest_events) wrap in
            (
              p',
              rw (e, live) (rw (go, live) q),
              wf',
              subst
                  (λ xs.
                    Perm (recorded p'.creator.superevents) (xs ++ recorded p.creator.superevents))
                  (ap (λ xs. event ∷ xs) next ∙ sym (limited-more max count event rest_events more))
                  (perm_step event _ _ _ _ perm' perm),
            )
      ]

  -- For floats that meet FloatLaws: from a well-formed creator with enough sequence numbers left,
  -- whatever messages and results arrive and whichever calls of Kafka, MongoDB, Redis, the
  -- storage and the log fail, the live loop does not panic, its creator is well formed, and its
  -- superevents record exactly the events recorded before and the decoded events, or the first of
  -- them as many as --max-events allows, each as often as it arrived.
  pub live-recorded :
      (max : ℕ) (p : Pipeline F C) (inbound : List (Inbound F C))
      → WellFormed L p.creator
      → p.creator.next_seq + length inbound < 2 ^ 64
      → (p' : Pipeline F C) × (live setup out max 0 p inbound ≡ some p')
        × WellFormed L p'.creator
        × Perm
            (recorded p'.creator.superevents)
            (limited max 0 (decoded inbound) ++ recorded p.creator.superevents)
  live-recorded max p inbound w room = live_from max 0 p inbound w room (omega arith) (ground arith)
