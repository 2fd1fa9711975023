-- ===== src/Agent/Controller/Heartbeats.antt =====
-- The heartbeats of a pod bill its time without a gap and without an overlap.
use cost_ai_grid_poc.Prelude.{
  ℕ, ◌≡◌, refl, sym, ap, ap₂, ◌∙◌, inl, inr, String, true, false, some, List, [], ◌∷◌, ◌++◌, str_eq,
  eq_iff, any_row, find_row, Bool-cases, All, if◌then◌else◌,
}
use cost_ai_grid_poc.Prelude.Int.{ℤ, pos, ◌+ℤ◌, ◌-ℤ◌, int_laws}
use cost_ai_grid_poc.Prelude.Keys.{string_key, has_key, IsKeyedBy}
use cost_ai_grid_poc.Agent.Kube.{Pod}
use cost_ai_grid_poc.Agent.Controller.{Settings, EventData, heartbeat_data, Emitted}
use cost_ai_grid_poc.Agent.Controller.Handlers.{
  Beats, pod_key, forget, beat_of, or_start, started_at, last_beat, billed_until, is_skipped,
  pod_heartbeat, emit_pod_heartbeats, heartbeat_loop,
}

abbrev pub duration : EventData → ℤ
duration (heartbeat_data d) = d.duration_seconds
duration _ = pos 0

-- the sum of the durations of the heartbeats with a subject
abbrev pub billed : String → List Emitted → ℤ
billed k [] = pos 0
billed k (e ∷ es) = (if str_eq e.subject k then duration e.data_of else pos 0) +ℤ billed k es

-- until when the pods under a key are billed, if their first one started at `started`
abbrev pub clock : String → ℕ → Beats → ℕ
clock k started beats = or_start started (last_beat k beats)

forgotten :
    (k key : String) (beats : Beats)
    → str_eq key k ≡ false
    → find_row (λ (e : String × ℕ). str_eq e.0 k) (forget key beats)
      ≡ find_row (λ (e : String × ℕ). str_eq e.0 k) beats
forgotten k key [] n = refl
forgotten k key (e ∷ beats) n = elim (Bool-cases (str_eq e.0 key)) [
  | inl t ↦
      let o : str_eq e.0 k ≡ false = ap (λ x. str_eq x k) ((eq_iff e.0 key).0 t) ∙ n in
      rw (t, o) (forgotten k key beats n)
  | inr m ↦ elim (Bool-cases (str_eq e.0 k)) [
    | inl u ↦ rw (m, u) refl
    | inr u ↦ rw (m, u) (forgotten k key beats n)
  ]
]

-- the heartbeat of another pod
other_beat :
    (k key : String) (now : ℕ) (beats : Beats)
    → str_eq key k ≡ false
    → last_beat k ((key, now) ∷ forget key beats) ≡ last_beat k beats
other_beat k key now beats n =
    let e : find_row (λ (e : String × ℕ). str_eq e.0 k) ((key, now) ∷ forget key beats)
        ≡ find_row (λ (e : String × ℕ). str_eq e.0 k) beats =
      rw n (forgotten k key beats n) in
    ap beat_of e

module _ (c : Settings) (now : ℕ) (k : String) where
  absent :
      (pods : List Pod) (beats : Beats)
      → any_row (has_key pod_key k) pods ≡ false
      → (billed k (emit_pod_heartbeats c now pods beats).0 ≡ pos 0)
        × (last_beat k (emit_pod_heartbeats c now pods beats).1 ≡ last_beat k beats)
  unfolding emit_pod_heartbeats pod_heartbeat
  absent [] beats a = (refl, refl)
  absent (x ∷ pods) beats a = elim (Bool-cases (str_eq (pod_key x) k)) [
    | inl t ↦ let e : true ≡ false = rw t at a in absurd (cc e)
    | inr n ↦
        let a' : any_row (has_key pod_key k) pods ≡ false = rw n at a in
        elim (Bool-cases (is_skipped c x)) [
          | inl s ↦ rw s (absent pods beats a')
          | inr s ↦
              let (b, l) = absent pods ((pod_key x, now) ∷ forget (pod_key x) beats) a' in
              rw (s, n, b) (omega int_laws, l ∙ other_beat k (pod_key x) now beats n)
        ]
  ]

  -- the pod that is listed under the key is billed until now
  present :
      (started : ℕ) (pods : List Pod) (q : Pod) (beats : Beats)
      → IsKeyedBy pod_key pods
      → find_row (has_key pod_key k) pods ≡ some q
      → is_skipped c q ≡ false
      → started_at q ≡ started
      → (billed k (emit_pod_heartbeats c now pods beats).0 ≡ pos now -ℤ pos (clock k started beats))
        × (last_beat k (emit_pod_heartbeats c now pods beats).1 ≡ some now)
  unfolding emit_pod_heartbeats pod_heartbeat
  present started [] q beats d f r b = absurd (cc f)
  present started (x ∷ pods) q beats d f r b = elim (Bool-cases (str_eq (pod_key x) k)) [
    | inl t ↦
        let e : some x ≡ some q = rw t at f in
        let xq : x ≡ q = cc e in
        let kx : pod_key x ≡ k = (eq_iff (pod_key x) k).0 t in
        let s : is_skipped c x ≡ false = ap (is_skipped c) xq ∙ r in
        let u : billed_until x beats ≡ clock k started beats =
          ap (λ j. or_start (started_at x) (last_beat j beats)) kx
          ∙ ap (λ s. or_start s (last_beat k beats)) (ap started_at xq ∙ b) in
        let a : any_row (has_key pod_key k) pods ≡ false =
          sym (ap (λ j. any_row (has_key pod_key j) pods) kx) ∙ d.0 in
        let next = (pod_key x, now) ∷ forget (pod_key x) beats in
        let (v, l) = absent pods next a in
        let found : find_row (λ (e : String × ℕ). str_eq e.0 k) next ≡ some (pod_key x, now) =
          rw t refl in
        rw (s, t, v, u) (omega int_laws, l ∙ ap beat_of found)
    | inr n ↦
        let f' : find_row (has_key pod_key k) pods ≡ some q = rw n at f in
        elim (Bool-cases (is_skipped c x)) [
          | inl s ↦ rw s (present started pods q beats d.1 f' r b)
          | inr s ↦
              let next = (pod_key x, now) ∷ forget (pod_key x) beats in
              let (v, l) = present started pods q next d.1 f' r b in
              let o : clock k started next ≡ clock k started beats =
                ap (or_start started) (other_beat k (pod_key x) now beats n) in
              rw (s, n, v, o) (omega int_laws, l)
        ]
  ]

-- At a tick the pods that are listed have keys of their own, and one that runs in a namespace that
-- is not excluded, and started at `started`, has the key `k`.
abbrev pub IsBeating : Settings → String → ℕ → ℕ × List Pod → Type 0
IsBeating c k started tick =
    IsKeyedBy pod_key tick.1
    × (q : Pod) × (find_row (has_key pod_key k) tick.1 ≡ some q)
    × (is_skipped c q ≡ false)
    × (started_at q ≡ started)

-- the time of the last tick, if there is one
abbrev pub last_tick : ℕ → List (ℕ × List Pod) → ℕ
last_tick now [] = now
last_tick now (tick ∷ ticks) = last_tick tick.0 ticks

telescope : (a b d : ℕ) → (pos b -ℤ pos a) +ℤ (pos d -ℤ pos b) ≡ pos d -ℤ pos a
telescope a b d = omega int_laws

billed-append :
    (k : String) (es fs : List Emitted) → billed k (es ++ fs) ≡ billed k es +ℤ billed k fs
billed-append k [] fs = omega int_laws
billed-append k (e ∷ es) fs =
    let i = billed-append k es fs in
    rw i
      (more (if str_eq e.subject k then duration e.data_of else pos 0) (billed k es) (billed k fs))
  where
    more : (x y z : ℤ) → x +ℤ (y +ℤ z) ≡ (x +ℤ y) +ℤ z
    more x y z = omega int_laws

-- If a pod runs at every tick of the heartbeats, the durations of its heartbeats add up to the time
-- of the last tick less the time until which it was billed before: that of its last heartbeat, or
-- its start. Its time is billed without a gap and without an overlap.
pub heartbeat_loop_tiles :
    (c : Settings) (k : String) (started : ℕ) (ticks : List (ℕ × List Pod)) (beats : Beats)
    → All (IsBeating c k started) ticks
    → billed k (heartbeat_loop c ticks beats).0
      ≡ pos (last_tick (clock k started beats) ticks) -ℤ pos (clock k started beats)
unfolding heartbeat_loop
heartbeat_loop_tiles c k started [] beats h = omega int_laws
heartbeat_loop_tiles c k started (tick ∷ ticks) beats ((d, q, f, r, s), h) =
    let out = emit_pod_heartbeats c tick.0 tick.1 beats in
    let (v, l) = present c tick.0 k started tick.1 q beats d f r s in
    let m : clock k started out.1 ≡ tick.0 = ap (or_start started) l in
    let i = rw m at (heartbeat_loop_tiles c k started ticks out.1 h) in
    billed-append k out.0 (heartbeat_loop c ticks out.1).0
    ∙ ap₂ (λ x y. x +ℤ y) v i
    ∙ telescope (clock k started beats) tick.0 (last_tick tick.0 ticks)
