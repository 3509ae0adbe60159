-- ===== src/Storage/Writer/Conserved.antt =====
-- internal/storage/async_writer.go: no write gets lost before the writer is closed.
use mathlib.Core.List.{Permᴰ}
use mathlib.Core.List.Permᴰ
use gps_data_receiver.Prelude.{
  ℕ, zero, suc, ◌≡◌, ◌≤◌, ◌⊎◌, inl, inr, refl, sym, ap, ◌∙◌, subst, List, [], ◌∷◌, ◌++◌,
  append_assoc, Option, none, some, Bool, Bool-cases, true, false, not, ◌&&◌, ◌||◌, if◌then◌else◌,
  ltb, length, length-append, arith, append-nil,
}
use gps_data_receiver.Prelude.Int.{ℤ}
use gps_data_receiver.Storage.Writer.{
  WriteOp, AsyncWriter, Sending, sends, gives_up, blocks, panics, new_async_writer, select_send,
  is_empty_op, enqueue_selected, enqueue_op, resume_selected, resume, run_once, WriterStep,
  enqueues, resumes, runs, cancels, closes, act, act_all,
}

module _ {F : Type 0} where
  -- Where an operation may be.
  abbrev pub held : AsyncWriter F → List (WriteOp F)
  held w = w.processed ++ (w.dropped ++ (w.senders ++ w.ch))

  -- The operations that were to be written.
  abbrev pub enqueued : List (WriterStep F) → List (WriteOp F)
  enqueued [] = []
  enqueued (enqueues takes_done op ∷ as') =
      if is_empty_op op then enqueued as' else op ∷ enqueued as'
  enqueued (_ ∷ as') = enqueued as'

  held-dropped :
      (w : AsyncWriter F) (op : WriteOp F)
      → Permᴰ (held (record w { dropped = op ∷ w.dropped })) (op ∷ held w)
  held-dropped w op = Permᴰ.middle op w.processed (w.dropped ++ (w.senders ++ w.ch))

  held-senders :
      (w : AsyncWriter F) (op : WriteOp F) (front back : List (WriteOp F))
      → Permᴰ
          (held (record w { senders = front ++ op ∷ back }))
          (op ∷ held (record w { senders = front ++ back }))
  held-senders w op front back =
      Permᴰ.trans
        (Permᴰ.append_left w.processed
          (Permᴰ.append_left w.dropped (Permᴰ.append_right w.ch (Permᴰ.middle op front back))))
        (Permᴰ.trans
          (Permᴰ.append_left w.processed (Permᴰ.middle op w.dropped ((front ++ back) ++ w.ch)))
          (Permᴰ.middle op w.processed (w.dropped ++ ((front ++ back) ++ w.ch))))

  held-ch :
      (w : AsyncWriter F) (op : WriteOp F)
      → Permᴰ (held (record w { ch = w.ch ++ op ∷ [] })) (op ∷ held w)
  held-ch w op =
      Permᴰ.trans
        (Permᴰ.append_left w.processed (
          Permᴰ.append_left w.dropped
            (Permᴰ.append_left w.senders (Permᴰ.append_comm w.ch (op ∷ [])))))
        (Permᴰ.trans
          (Permᴰ.append_left w.processed
            (Permᴰ.append_left w.dropped (Permᴰ.middle op w.senders w.ch)))
          (Permᴰ.trans
            (Permᴰ.append_left w.processed (Permᴰ.middle op w.dropped (w.senders ++ w.ch)))
            (Permᴰ.middle op w.processed (w.dropped ++ (w.senders ++ w.ch)))))

  held-run :
      (w : AsyncWriter F) (op : WriteOp F) (ops : List (WriteOp F))
      → Permᴰ (op ∷ held (record w { ch = ops })) (held (record w { ch = op ∷ ops }))
  held-run w op ops = Permᴰ.symm (
      Permᴰ.trans
        (Permᴰ.append_left w.processed
          (Permᴰ.append_left w.dropped (Permᴰ.middle op w.senders ops)))
        (Permᴰ.trans (Permᴰ.append_left w.processed (Permᴰ.middle op w.dropped (w.senders ++ ops)))
          (Permᴰ.middle op w.processed (w.dropped ++ (w.senders ++ ops)))))

  -- What a step leaves: the operations of before and the new ones, nothing given up unless the writer
  -- is cancelled, and no more in the channel than it can hold.
  abbrev Keeps : List (WriteOp F) → AsyncWriter F → Type 0
  Keeps ops w =
      Permᴰ (held w) ops × ((w.dropped ≡ []) ⊎ (w.cancelled ≡ true)) × (length w.ch ≤ w.capacity)

  abbrev KeepsIf : List (WriteOp F) → Option (AsyncWriter F) → Type 0
  KeepsIf ops none = Unit
  KeepsIf ops (some w) = Keeps ops w

  -- A send that goes through had room; one that is given up was cancelled.
  abbrev Allowed : AsyncWriter F → Sending → Type 0
  Allowed w sends = ltb (length w.ch) w.capacity ≡ true
  Allowed w gives_up = w.cancelled ≡ true
  Allowed w _ = Unit

  select_send-Allowed :
      (takes_done : Bool) (w : AsyncWriter F) → Allowed w (select_send takes_done w)
  unfolding select_send
  select_send-Allowed takes_done w =
      by_tests w.cancelled takes_done w.closed (ltb (length w.ch) w.capacity) refl refl
    where
      by_tests :
          (cancelled done closed room : Bool)
          → w.cancelled ≡ cancelled
          → ltb (length w.ch) w.capacity ≡ room
          → Allowed w (
              if cancelled && (done || not (closed || room))
              then gives_up
              else if closed
              then panics
              else if room
              then sends
              else blocks)
      by_tests true true closed room c r = c
      by_tests true false true room c r = tt
      by_tests true false false true c r = r
      by_tests true false false false c r = c
      by_tests false done true room c r = tt
      by_tests false done false true c r = r
      by_tests false done false false c r = tt

  fits_more :
      (w : AsyncWriter F) (op : WriteOp F)
      → ltb (length w.ch) w.capacity ≡ true
      → length (w.ch ++ op ∷ []) ≤ w.capacity
  fits_more w op room = (let size = length-append w.ch (op ∷ []) in ground arith)

  enqueue_selected-Keeps :
      (s : Sending) (op : WriteOp F) (ops : List (WriteOp F)) (w : AsyncWriter F)
      → Allowed w s
      → Keeps ops w
      → KeepsIf (op ∷ ops) (enqueue_selected s op w)
  enqueue_selected-Keeps sends op ops w room (p, d, size) =
      (Permᴰ.trans (held-ch w op) (Permᴰ.cons refl p), d, fits_more w op room)
  enqueue_selected-Keeps gives_up op ops w cancelled (p, d, size) =
      (Permᴰ.trans (held-dropped w op) (Permᴰ.cons refl p), inr cancelled, size)
  enqueue_selected-Keeps blocks op ops w t (p, d, size) =
      (Permᴰ.trans (held-senders w op [] w.senders) (Permᴰ.cons refl p), d, size)
  enqueue_selected-Keeps panics op ops w t keeps = tt

  resume_selected-Keeps :
      (s : Sending) (op : WriteOp F) (front back ops : List (WriteOp F)) (w : AsyncWriter F)
      → Allowed w s
      → w.senders ≡ front ++ op ∷ back
      → Keeps ops w
      → KeepsIf ops (resume_selected s op (front ++ back) w)
  resume_selected-Keeps sends op front back ops w room stands (p, d, size) = (
    Permᴰ.trans (held-ch (record w { senders = front ++ back }) op) (
        Permᴰ.trans (Permᴰ.symm (held-senders w op front back))
          (subst (λ (l : List (WriteOp F)). Permᴰ (held (record w { senders = l })) ops) stands p)),
    d,
    fits_more w op room,
  )
  resume_selected-Keeps gives_up op front back ops w cancelled stands (p, d, size) = (
    Permᴰ.trans (held-dropped (record w { senders = front ++ back }) op) (
        Permᴰ.trans (Permᴰ.symm (held-senders w op front back))
          (subst (λ (l : List (WriteOp F)). Permᴰ (held (record w { senders = l })) ops) stands p)),
    inr cancelled,
    size,
  )
  resume_selected-Keeps blocks op front back ops w t stands keeps = keeps
  resume_selected-Keeps panics op front back ops w t stands keeps = tt

  resume-Keeps :
      (n : ℕ) (takes_done : Bool) (front back ops : List (WriteOp F)) (w : AsyncWriter F)
      → w.senders ≡ front ++ back
      → Keeps ops w
      → KeepsIf ops (resume n takes_done front back w)
  unfolding resume
  resume-Keeps n takes_done front [] ops w stands keeps = keeps
  resume-Keeps zero takes_done front (op ∷ back) ops w stands keeps =
      resume_selected-Keeps (select_send takes_done w) op front back ops w
        (select_send-Allowed takes_done w) stands keeps
  resume-Keeps (suc n) takes_done front (op ∷ back) ops w stands keeps =
      resume-Keeps n takes_done (front ++ op ∷ []) back ops w
        (stands ∙ sym (append_assoc front (op ∷ []) back)) keeps

  run_once-Keeps :
      (ch ops : List (WriteOp F)) (w : AsyncWriter F)
      → w.ch ≡ ch
      → Keeps ops w
      → Keeps ops (run_once ch w)
  run_once-Keeps [] ops w holds keeps = keeps
  run_once-Keeps (op ∷ ch) ops w holds (p, d, size) = (
    Permᴰ.trans (held-run w op ch)
        (subst (λ (l : List (WriteOp F)). Permᴰ (held (record w { ch = l })) ops) holds p),
    d,
    omega (arith, ap length holds),
  )

  act-Keeps :
      (a : WriterStep F) (ops : List (WriteOp F)) (w : AsyncWriter F)
      → Keeps ops w
      → KeepsIf (enqueued (a ∷ []) ++ ops) (act a w)
  unfolding act enqueue_op
  act-Keeps (enqueues takes_done op) ops w keeps = elim (Bool-cases (is_empty_op op)) [
    | inl nothing ↦ rw (act, nothing) keeps
    | inr there ↦
        rw (act, there)
          (enqueue_selected-Keeps (select_send takes_done w) op ops w
            (select_send-Allowed takes_done w) keeps)
  ]
  act-Keeps (resumes n takes_done) ops w keeps =
      resume-Keeps n takes_done [] w.senders ops w refl keeps
  act-Keeps runs ops w keeps = run_once-Keeps w.ch ops w refl keeps
  act-Keeps cancels ops w (p, d, size) = (p, inr refl, size)
  act-Keeps closes ops w keeps = keeps

  enqueued-cons :
      (a : WriterStep F) (as' : List (WriterStep F)) (ops : List (WriteOp F))
      → Permᴰ (enqueued as' ++ (enqueued (a ∷ []) ++ ops)) (enqueued (a ∷ as') ++ ops)
  enqueued-cons (enqueues takes_done op) as' ops = elim (Bool-cases (is_empty_op op)) [
    | inl nothing ↦ rw nothing (Permᴰ.refl (enqueued as' ++ ops))
    | inr there ↦ rw there (Permᴰ.middle op (enqueued as') ops)
  ]
  enqueued-cons (resumes n takes_done) as' ops = Permᴰ.refl (enqueued as' ++ ops)
  enqueued-cons runs as' ops = Permᴰ.refl (enqueued as' ++ ops)
  enqueued-cons cancels as' ops = Permᴰ.refl (enqueued as' ++ ops)
  enqueued-cons closes as' ops = Permᴰ.refl (enqueued as' ++ ops)

  KeepsIf-perm :
      (o : Option (AsyncWriter F)) (ops more : List (WriteOp F))
      → Permᴰ ops more
      → KeepsIf ops o
      → KeepsIf more o
  KeepsIf-perm none ops more p keeps = tt
  KeepsIf-perm (some w) ops more p (q, d, size) = (Permᴰ.trans q p, d, size)

  act_all-KeepsIf :
      (as' : List (WriterStep F)) (ops : List (WriteOp F)) (o : Option (AsyncWriter F))
      → KeepsIf ops o
      → KeepsIf (enqueued as' ++ ops) (act_all as' o)
  unfolding act_all
  act_all-KeepsIf [] ops o keeps = keeps
  act_all-KeepsIf (a ∷ as') ops none keeps = tt
  act_all-KeepsIf (a ∷ as') ops (some w) keeps =
      KeepsIf-perm (act_all as' (act a w)) (enqueued as' ++ (enqueued (a ∷ []) ++ ops))
        (enqueued (a ∷ as') ++ ops) (enqueued-cons a as' ops)
        (act_all-KeepsIf as' (enqueued (a ∷ []) ++ ops) (act a w) (act-Keeps a ops w keeps))

  -- Whatever writes are enqueued and however the goroutines take turns, as long as none of them
  -- panics, each write that is not empty is in just one place: processed, in the channel, with a
  -- goroutine that waits to send it, or given up; none is given up before the writer is cancelled,
  -- and the channel never holds more than its size.
  pub actions_conserve :
      (as' : List (WriterStep F)) (queue_size : ℤ) (w : AsyncWriter F)
      → act_all as' (some (new_async_writer queue_size)) ≡ some w
      → Permᴰ (w.processed ++ (w.dropped ++ (w.senders ++ w.ch))) (enqueued as')
        × ((w.dropped ≡ []) ⊎ (w.cancelled ≡ true))
        × (length w.ch ≤ w.capacity)
  actions_conserve as' queue_size w ends =
      subst (λ (l : List (WriteOp F)). Keeps l w) (append-nil (enqueued as'))
        (subst (KeepsIf (enqueued as' ++ [])) ends (
          act_all-KeepsIf as' [] (some (new_async_writer queue_size))
            (Permᴰ.nil, inl refl, omega arith)))
