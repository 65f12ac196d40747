-- ===== src/Logger/Queued/Books.antt =====
-- The entries of the logger over a queue, in the calls of its threads and of the background thread.
use mathlib.Core.List.{append-nil, append_assoc}
use cccloud.Prelude.{
  ℕ, ◌+◌, ◌≡◌, refl, sym, ap, ◌∙◌, Bool, true, false, List, [], ◌∷◌, ◌++◌, leb, Bool-cases, inl,
  inr, if◌then◌else◌,
}
use cccloud.Queue.{BaseQueue, head?, tail}
use cccloud.Logger.{LogEntry}
use cccloud.Logger.Flush.{batch_threshold}
use cccloud.Logger.Flush.Drains.{entries_of, entries_of-append}
use cccloud.Logger.Queued.{
  Flusher, waiting, opening, testing, taking, writing, closing, asking, ended, terminated, keep,
  QueuedLogger, started, append, stop, poll, background_flush,
}

-- The entries that the background thread has taken and not yet written.
abbrev pub in_hand : Flusher → List LogEntry
in_hand (testing entries cnt) = entries
in_hand (taking entries cnt) = entries
in_hand (writing entries) = entries
in_hand _ = []

abbrev pub has_terminated : Flusher → Bool
has_terminated terminated = true
has_terminated _ = false

module _ (q : BaseQueue LogEntry) where
  -- One call of a thread that appends or stops, one poll of the waiting background thread, or one step
  -- of it, with the entries that came in. A program that has been terminated does nothing.
  pub data Step (s : QueuedLogger q) : QueuedLogger q → List LogEntry → Type 0 where
    appended :
        (i : ℕ) (entry : LogEntry)
        → has_terminated s.flusher ≡ false
        → Step s (append q i entry s) (entry ∷ [])
    stopped : has_terminated s.flusher ≡ false → Step s (stop q s) []
    polled : (i : ℕ) → s.flusher ≡ waiting → Step s (poll q i s) []
    flushed : (i : ℕ) (opens : Bool) → Step s (background_flush q i opens s s.flusher) []

  -- The states reached from a new logger over an empty queue, with the entries appended so far.
  pub data Reach : QueuedLogger q → List LogEntry → Type 0 where
    begin : (s : q.State) → q.values s ≡ [] → Reach (started q s) []
    later :
        {s t : QueuedLogger q} {es fs : List LogEntry}
        → Reach s es
        → Step s t fs
        → Reach t (es ++ fs)

  -- All entries there are: given to a file, in the hand of the background thread, and in the queue.
  unfoldable pub accounted : QueuedLogger q → List LogEntry
  accounted s = entries_of s.written ++ (in_hand s.flusher ++ q.values s.log_queue)

  accounted-append :
      (i : ℕ) (entry : LogEntry) (s : QueuedLogger q)
      → accounted (append q i entry s) ≡ accounted s ++ (entry ∷ [])
  unfolding accounted append
  accounted-append i entry s = elim (Bool-cases (leb batch_threshold (s.unflushed_count + 1))) [
    | inl e ↦ rw (e, q.values-enqueue i entry s.log_queue) moved
    | inr e ↦ rw (e, q.values-enqueue i entry s.log_queue) moved
  ]
    where
      moved :
          entries_of s.written ++ (in_hand s.flusher ++ (q.values s.log_queue ++ (entry ∷ [])))
          ≡ (entries_of s.written ++ (in_hand s.flusher ++ q.values s.log_queue)) ++ (entry ∷ [])
      moved =
          ap (λ l. entries_of s.written ++ l)
            (sym (append_assoc (in_hand s.flusher) (q.values s.log_queue) (entry ∷ [])))
          ∙ sym (
              append_assoc (entries_of s.written) (in_hand s.flusher ++ q.values s.log_queue)
                (entry ∷ []))

  accounted-stop : (s : QueuedLogger q) → accounted (stop q s) ≡ accounted s
  unfolding accounted stop
  accounted-stop s = refl

  accounted-poll : (i : ℕ) (s : QueuedLogger q) → accounted (poll q i s) ≡ accounted s
  unfolding accounted poll
  accounted-poll i s = elim (Bool-cases s.running) [
    | inl e ↦ rw (e, q.values-empty i s.log_queue) refl
    | inr e ↦ rw e refl
  ]

  in_hand-if :
      (b : Bool) (f g : Flusher) → in_hand f ≡ in_hand g → in_hand (if b then f else g) ≡ in_hand g
  in_hand-if true f g e = e
  in_hand-if false f g e = refl

  taken :
      (vs entries : List LogEntry) (cnt : ℕ)
      → in_hand (keep (head? vs) entries cnt) ++ tail vs ≡ entries ++ vs
  unfolding keep
  taken [] entries cnt = refl
  taken (v ∷ vs) entries cnt = append_assoc entries (v ∷ []) vs

  -- A step of the background thread neither loses nor doubles an entry.
  pub accounted-background_flush :
      (i : ℕ) (opens : Bool) (s : QueuedLogger q) (f : Flusher)
      → s.flusher ≡ f
      → accounted (background_flush q i opens s f) ≡ accounted s
  unfolding accounted background_flush entries_of
  accounted-background_flush i opens s waiting e = rw e refl
  accounted-background_flush i opens s opening e =
      rw (e, in_hand-if opens (testing [] 0) terminated refl) refl
  accounted-background_flush i opens s (testing entries cnt) e =
      rw (e, in_hand-if _ (taking entries cnt) (writing entries) refl, q.values-empty i s.log_queue)
        refl
  accounted-background_flush i opens s (taking entries cnt) e =
      rw (e, q.result-dequeue i s.log_queue, q.values-dequeue i s.log_queue)
        (ap (λ l. entries_of s.written ++ l) (taken (q.values s.log_queue) entries cnt))
  accounted-background_flush i opens s (writing entries) e =
      rw (e, entries_of-append s.written (entries ∷ []), append-nil entries)
        (append_assoc (entries_of s.written) entries (q.values s.log_queue))
  accounted-background_flush i opens s closing e =
      rw (e, in_hand-if s.running waiting asking refl) refl
  accounted-background_flush i opens s asking e =
      rw (e, in_hand-if _ ended waiting refl, q.values-empty i s.log_queue) refl
  accounted-background_flush i opens s ended e = refl
  accounted-background_flush i opens s terminated e = refl

  accounted-Step :
      {s t : QueuedLogger q} {fs : List LogEntry} → Step s t fs → accounted t ≡ accounted s ++ fs
  accounted-Step {s = s} (appended i entry alive) = accounted-append i entry s
  accounted-Step {s = s} (stopped alive) = accounted-stop s ∙ sym (append-nil (accounted s))
  accounted-Step {s = s} (polled i e) = accounted-poll i s ∙ sym (append-nil (accounted s))
  accounted-Step {s = s} (flushed i opens) =
      accounted-background_flush i opens s s.flusher refl ∙ sym (append-nil (accounted s))

  -- In every state that the threads can reach, whether or not the log file opens in a turn: the entries
  -- given to an open file, then those that the background thread has taken, then those in the queue are
  -- the entries appended so far, in their order, each once.
  pub entries_accounted :
      {s : QueuedLogger q} {es : List LogEntry}
      → Reach s es
      → entries_of s.written ++ (in_hand s.flusher ++ q.values s.log_queue) ≡ es
  unfolding accounted entries_of
  entries_accounted (begin s e) = e
  entries_accounted (later {es = es} {fs = fs} r step) =
      accounted-Step step ∙ ap (λ l. l ++ fs) (entries_accounted r)
