-- ===== src/Logger/Flush/Drains.antt =====
-- What the background thread writes after `stop`.
use mathlib.Core.List.{append-nil, append_assoc}
use cccloud.Prelude.{
  Bool, if◌then◌else◌, not, ◌&&◌, true, false, ◌<◌, some, Option, ℕ, zero, suc, ◌≤◌, ◌≡◌, refl, sym,
  ap, ◌∙◌, List, [], ◌∷◌, ◌++◌, arith, length,
}
use cccloud.Logger.{LogEntry}
use cccloud.Logger.Flush.{
  end_turn, is_empty, stop, background_flush, Logger, take_batch, flush_round, batch_threshold,
}

-- The entries in the file, in order.
unfoldable pub entries_of : List (List LogEntry) → List LogEntry
entries_of [] = []
entries_of (batch ∷ batches) = batch ++ entries_of batches

pub entries_of-append :
    (bs cs : List (List LogEntry)) → entries_of (bs ++ cs) ≡ entries_of bs ++ entries_of cs
unfolding entries_of
entries_of-append [] cs = refl
entries_of-append (b ∷ bs) cs =
    ap (λ es. b ++ es) (entries_of-append bs cs) ∙ sym (append_assoc b _ _)

take_batch-append :
    (room : ℕ) (queue : List LogEntry)
    → (take_batch room queue).0 ++ (take_batch room queue).1 ≡ queue
unfolding take_batch
take_batch-append zero queue = refl
take_batch-append (suc room) [] = refl
take_batch-append (suc room) (entry ∷ queue) = ap (λ es. entry ∷ es) (take_batch-append room queue)

-- A batch from a queue that is not empty takes something.
take_batch_less :
    (room : ℕ) (queue : List LogEntry) → length (take_batch room queue).1 ≤ length queue
unfolding take_batch
take_batch_less zero queue = omega arith
take_batch_less (suc room) [] = omega arith
take_batch_less (suc room) (entry ∷ queue) = omega (arith, take_batch_less room queue)

entries_of-flush_round :
    (s : Logger)
    → entries_of (flush_round s).written ++ (flush_round s).queue ≡ entries_of s.written ++ s.queue
unfolding flush_round entries_of
entries_of-flush_round s =
    let p = take_batch batch_threshold s.queue in
    ap (λ es. es ++ p.1)
      (entries_of-append s.written (p.0 ∷ [])
        ∙ ap (λ es. entries_of s.written ++ es) (append-nil p.0))
    ∙ (append_assoc (entries_of s.written) p.0 p.1
        ∙ ap (λ es. entries_of s.written ++ es) (take_batch-append batch_threshold s.queue))

take_batch_shrinks :
    (room : ℕ) (queue : List LogEntry)
    → is_empty (take_batch (suc room) queue).1 ≡ false
    → length (take_batch (suc room) queue).1 < length queue
unfolding take_batch is_empty
take_batch_shrinks room [] h = absurd (cc)
take_batch_shrinks room (entry ∷ queue) h = omega (arith, take_batch_less room queue)

queue_of_empty : (queue : List LogEntry) → is_empty queue ≡ true → queue ≡ []
unfolding is_empty
queue_of_empty [] h = refl
queue_of_empty (entry ∷ queue) h = absurd (cc)

-- A thread that has written every entry of the queue `s` and has come to its end.
pub data Drained (s : Logger) : Option Logger → Type 0 where
  drained :
      (t : Logger)
      → entries_of t.written ≡ entries_of s.written ++ s.queue
      → t.queue ≡ []
      → Drained s (some t)

if-Drained :
    (b : Bool) (s : Logger) (o p : Option Logger)
    → (b ≡ true → Drained s o)
    → (b ≡ false → Drained s p)
    → Drained s (if b then o else p)
if-Drained true s o p f g = f refl
if-Drained false s o p f g = g refl

end_turn-Drained :
    (s t : Logger) (later : Option Logger)
    → t.running ≡ false
    → (is_empty t.queue ≡ true → Drained s (some t))
    → (is_empty t.queue ≡ false → Drained s later)
    → Drained s (end_turn t later)
unfolding end_turn
end_turn-Drained s t later stopped f g =
    if-Drained (not t.running && is_empty t.queue) s (some t) later
      (λ h. f (both t.running (is_empty t.queue) h))
      (λ h. g (neither t.running (is_empty t.queue) stopped h))
  where
    both : (a b : Bool) → (not a && b) ≡ true → b ≡ true
    both a b h = ground arith

    neither : (a b : Bool) → a ≡ false → (not a && b) ≡ false → b ≡ false
    neither a b e h = ground arith

running-flush_round : (s : Logger) → (flush_round s).running ≡ s.running
unfolding flush_round
running-flush_round s = refl

flush_round_shrinks :
    (s : Logger)
    → is_empty (flush_round s).queue ≡ false
    → length (flush_round s).queue < length s.queue
unfolding flush_round
flush_round_shrinks s h = take_batch_shrinks 255 s.queue h

again : (s : Logger) (o : Option Logger) → Drained (flush_round s) o → Drained s o
again s _ (drained t all none_left) = drained t (all ∙ entries_of-flush_round s) none_left

Drained-round :
    (s : Logger) → is_empty (flush_round s).queue ≡ true → Drained s (some (flush_round s))
Drained-round s e =
    drained (flush_round s)
      (sym (append-nil (entries_of (flush_round s).written))
        ∙ (ap (λ q. entries_of (flush_round s).written ++ q)
              (sym (queue_of_empty (flush_round s).queue e))
            ∙ entries_of-flush_round s))
      (queue_of_empty (flush_round s).queue e)

flush_stopped :
    (fuel : ℕ) (s : Logger)
    → s.running ≡ false
    → length s.queue < fuel
    → Drained s (background_flush fuel s)
unfolding background_flush
flush_stopped zero s stopped h = absurd (omega (arith, h))
flush_stopped (suc fuel) s stopped h =
    let stopped' = running-flush_round s ∙ stopped in
    end_turn-Drained s (flush_round s) (background_flush fuel (flush_round s)) stopped'
      (Drained-round s)
      (λ e.
        again s (background_flush fuel (flush_round s))
          (flush_stopped fuel (flush_round s) stopped' (omega (arith, h, flush_round_shrinks s e))))

of_stop : (s : Logger) (o : Option Logger) → Drained (stop s) o → Drained s o
unfolding stop
of_stop s _ (drained t all none_left) = drained t all none_left

-- After `stop`, with nobody appending, the background thread ends within one turn more than there
-- are entries in the queue, and leaves in the file all that was there and then all entries of the
-- queue, in order, each once.
pub stop_writes_all :
    (fuel : ℕ) (s : Logger) → length s.queue < fuel → Drained s (background_flush fuel (stop s))
unfolding stop
stop_writes_all fuel s h =
    of_stop s (background_flush fuel (stop s)) (flush_stopped fuel (stop s) refl h)
