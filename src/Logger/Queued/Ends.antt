-- ===== src/Logger/Queued/Ends.antt =====
-- How the background thread of the logger over a queue ends.
use mathlib.Core.List.{append-nil}
use cccloud.Logger.Flush.Drains.{entries_of}
use cccloud.Logger.Queued.Books.{accounted, accounted-background_flush, Reach, entries_accounted}
use cccloud.Prelude.{
  zero, subst, sym, ◌∙◌, ◌≤◌, ℕ, suc, ◌+◌, ◌*◌, ◌<◌, ◌≡◌, refl, Bool, true, false, ltb, ◌⊎◌, inl,
  inr, List, [], ◌∷◌, ◌++◌, length, arith, Bool-cases, if◌then◌else◌,
}
use cccloud.Queue.{BaseQueue}
use cccloud.Logger.{LogEntry}
use cccloud.Logger.Flush.{batch_threshold}
use cccloud.Logger.Queued.{
  Flusher, waiting, opening, testing, taking, writing, closing, asking, ended, terminated, keep,
  QueuedLogger, background_flush,
}

-- The background thread has neither left its loop nor been ended by an exception.
abbrev pub is_live : Flusher → Bool
is_live ended = false
is_live terminated = false
is_live _ = true

-- A bound on the steps that are left, with nothing in the queue or with an entry in it.
abbrev rank_empty : Flusher → ℕ
rank_empty waiting = 6
rank_empty opening = 5
rank_empty (testing entries cnt) = 4
rank_empty (taking entries cnt) = 5
rank_empty (writing entries) = 3
rank_empty closing = 2
rank_empty asking = 1
rank_empty _ = 0

abbrev rank_full : Flusher → ℕ
rank_full waiting = 3
rank_full opening = 2
rank_full (testing entries cnt) = if ltb cnt batch_threshold then 1 else 7
rank_full (taking entries cnt) = 0
rank_full (writing entries) = 6
rank_full closing = 5
rank_full asking = 4
rank_full _ = 0

abbrev measure : List LogEntry → Flusher → ℕ
measure [] f = rank_empty f
measure (v ∷ vs) f = 10 * suc (length vs) + rank_full f

measure-tested :
    (vs : List LogEntry) (entries : List LogEntry) (cnt : ℕ)
    → measure vs (testing entries cnt) < 10 * suc (length vs)
measure-tested [] entries cnt = omega arith
measure-tested (v ∷ vs) entries cnt = ground arith

rank_empty-bound : (f : Flusher) → rank_empty f < 8
rank_empty-bound waiting = omega arith
rank_empty-bound opening = omega arith
rank_empty-bound (testing entries cnt) = omega arith
rank_empty-bound (taking entries cnt) = omega arith
rank_empty-bound (writing entries) = omega arith
rank_empty-bound closing = omega arith
rank_empty-bound asking = omega arith
rank_empty-bound ended = omega arith
rank_empty-bound terminated = omega arith

rank_full-bound : (f : Flusher) → rank_full f < 8
rank_full-bound waiting = omega arith
rank_full-bound opening = omega arith
rank_full-bound (testing entries cnt) = ground arith
rank_full-bound (taking entries cnt) = omega arith
rank_full-bound (writing entries) = omega arith
rank_full-bound closing = omega arith
rank_full-bound asking = omega arith
rank_full-bound ended = omega arith
rank_full-bound terminated = omega arith

measure-bound : (vs : List LogEntry) (f : Flusher) → measure vs f < 10 * length vs + 18
measure-bound [] f = omega (arith, rank_empty-bound f)
measure-bound (v ∷ vs) f = omega (arith, rank_full-bound f)

module _ (q : BaseQueue LogEntry) where
  -- Where a step leads, from a queue that holds `vs` and the place `f`: to the end, with the queue empty,
  -- or nearer to it.
  abbrev Nearer : List LogEntry → Flusher → QueuedLogger q → Type 0
  Nearer vs f t =
      ((t.flusher ≡ ended) × (q.values t.log_queue ≡ []))
      ⊎ ((is_live t.flusher ≡ true) × (measure (q.values t.log_queue) t.flusher < measure vs f))

  background_flush-Nearer :
      (i : ℕ) (s : QueuedLogger q) (f : Flusher) (vs : List LogEntry)
      → s.running ≡ false
      → is_live f ≡ true
      → q.values s.log_queue ≡ vs
      → Nearer vs f (background_flush q i true s f)
  unfolding background_flush keep
  background_flush-Nearer i s waiting [] off live e = inr (refl, rw e (omega arith))
  background_flush-Nearer i s waiting (v ∷ vs) off live e = inr (refl, rw e (omega arith))
  background_flush-Nearer i s opening [] off live e = inr (refl, rw e (omega arith))
  background_flush-Nearer i s opening (v ∷ vs) off live e = inr (refl, rw e (omega arith))
  background_flush-Nearer i s (testing entries cnt) [] off live e =
      rw (q.values-empty i s.log_queue, q.result-empty i s.log_queue, e) (inr (refl, omega arith))
  background_flush-Nearer i s (testing entries cnt) (v ∷ vs) off live e =
      elim (Bool-cases (ltb cnt batch_threshold)) [
        | inl room ↦
            rw (q.values-empty i s.log_queue, q.result-empty i s.log_queue, e, room)
              (inr (refl, omega arith))
        | inr full ↦
            rw (q.values-empty i s.log_queue, q.result-empty i s.log_queue, e, full)
              (inr (refl, omega arith))
      ]
  background_flush-Nearer i s (taking entries cnt) [] off live e =
      rw (q.values-dequeue i s.log_queue, q.result-dequeue i s.log_queue, e)
        (inr (refl, omega arith))
  background_flush-Nearer i s (taking entries cnt) (v ∷ vs) off live e =
      rw (q.values-dequeue i s.log_queue, q.result-dequeue i s.log_queue, e)
        (inr (refl, omega (arith, measure-tested vs (entries ++ (v ∷ [])) (suc cnt))))
  background_flush-Nearer i s (writing entries) [] off live e = inr (refl, rw e (omega arith))
  background_flush-Nearer i s (writing entries) (v ∷ vs) off live e = inr (refl, rw e (omega arith))
  background_flush-Nearer i s closing [] off live e = rw (off, e) (inr (refl, omega arith))
  background_flush-Nearer i s closing (v ∷ vs) off live e = rw (off, e) (inr (refl, omega arith))
  background_flush-Nearer i s asking [] off live e =
      rw (q.values-empty i s.log_queue, q.result-empty i s.log_queue, e) (inl (refl, refl))
  background_flush-Nearer i s asking (v ∷ vs) off live e =
      rw (q.values-empty i s.log_queue, q.result-empty i s.log_queue, e) (inr (refl, omega arith))
  background_flush-Nearer i s ended vs off live e = absurd (cc (live))
  background_flush-Nearer i s terminated vs off live e = absurd (cc (live))

  running-background_flush :
      (i : ℕ) (opens : Bool) (s : QueuedLogger q) (f : Flusher)
      → (background_flush q i opens s f).running ≡ s.running
  unfolding background_flush
  running-background_flush i opens s waiting = refl
  running-background_flush i opens s opening = refl
  running-background_flush i opens s (testing entries cnt) = refl
  running-background_flush i opens s (taking entries cnt) = refl
  running-background_flush i opens s (writing entries) = refl
  running-background_flush i opens s closing = refl
  running-background_flush i opens s asking = refl
  running-background_flush i opens s ended = refl
  running-background_flush i opens s terminated = refl

  -- `n` steps of the background thread `i`, whose log file opens.
  unfoldable pub flush_steps : ℕ → ℕ → QueuedLogger q → QueuedLogger q
  flush_steps i zero s = s
  flush_steps i (suc n) s = flush_steps i n (background_flush q i true s s.flusher)

  -- The background thread has left its loop, with every entry of `es` given to an open file and none in the queue.
  pub record HasWritten (es : List LogEntry) (t : QueuedLogger q) : Type 0 where
    pub over : t.flusher ≡ ended
    pub all : entries_of t.written ≡ es
    pub none_left : q.values t.log_queue ≡ []

  at_end-HasWritten :
      (t : QueuedLogger q)
      → t.flusher ≡ ended
      → q.values t.log_queue ≡ []
      → HasWritten (accounted q t) t
  unfolding accounted
  at_end-HasWritten t over none_left = record {
    over = over;
    all = rw (over, none_left) (sym (append-nil (entries_of t.written)));
    none_left = none_left;
  }

  ends_within :
      (i k : ℕ) (s : QueuedLogger q)
      → s.running ≡ false
      → is_live s.flusher ≡ true
      → measure (q.values s.log_queue) s.flusher < k
      → (n : ℕ) × (n ≤ k) × HasWritten (accounted q s) (flush_steps i n s)
  unfolding flush_steps
  ends_within i zero s off live h = absurd (omega arith)
  ends_within i (suc k) s off live h =
      let t = background_flush q i true s s.flusher in
      let same = accounted-background_flush q i true s s.flusher refl in
      elim (background_flush-Nearer i s s.flusher (q.values s.log_queue) off live refl) [
        | inl (over, none_left) ↦ (
          1,
          omega arith,
          subst (λ es. HasWritten es t) same (at_end-HasWritten t over none_left),
        )
        | inr (live', less) ↦
            (let (n, few, wrote) =
                ends_within i k t (running-background_flush i true s s.flusher ∙ off) live'
                  (omega (arith, less, h)) in
              (
                suc n,
                omega (arith, few),
                subst (λ es. HasWritten es (flush_steps i n t)) same wrote,
              ))
      ]

  -- From any state that the threads can reach, wherever the background thread then is in its loop: once
  -- `stop` has been called, with nobody appending any more and a log file that opens in every turn, the
  -- background thread leaves its loop within ten steps for each entry in the queue and eighteen more,
  -- with every entry ever appended given to an open log file, in their order, each once, and the queue
  -- empty.
  pub stopped_logger_writes_all :
      {s : QueuedLogger q} {es : List LogEntry}
      → Reach q s es
      → s.running ≡ false
      → is_live s.flusher ≡ true
      → (i : ℕ)
      → (n : ℕ) × (n ≤ 10 * length (q.values s.log_queue) + 18) × HasWritten es (flush_steps i n s)
  unfolding accounted
  stopped_logger_writes_all {s = s} reach off live i =
      let (n, few, wrote) =
        ends_within i (10 * length (q.values s.log_queue) + 18) s off live
          (measure-bound (q.values s.log_queue) s.flusher) in
      (n, few, subst (λ l. HasWritten l (flush_steps i n s)) (entries_accounted q reach) wrote)
