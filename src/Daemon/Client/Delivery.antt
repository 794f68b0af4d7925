-- ===== src/Daemon/Client/Delivery.antt =====
-- That a lost connection only delays what the daemon emits (agent-daemon/src/client.js).
use code_caller.Prelude.{
  ◌≡◌, refl, sym, ◌∙◌, ap, inl, inr, true, false, List, [], ◌∷◌, ◌++◌, arith, if◌then◌else◌,
  Bool-cases, is_some,
}
use mathlib.Core.List.{append-nil}
use code_caller.Daemon.State.{Daemon}
use code_caller.Daemon.Client.{
  Event, socket_connect, socket_disconnect, socket_error, stop_signal, on_event, step, run,
  flush_buffer, shutdown,
}
use code_caller.Daemon.Client.Steady.{online, IsOrdered, is_loss, is_end, on_event-Steady}

module _ (e : Event) (d : Daemon) where
  loss-online :
      is_loss e ≡ true → IsOrdered d → (online (on_event e d) ≡ online d) × IsOrdered (on_event e d)
  unfolding on_event flush_buffer
  loss-online k o = go e k
    where
      go :
          (e : Event)
          → is_loss e ≡ true
          → (online (on_event e d) ≡ online d) × IsOrdered (on_event e d)
      go socket_connect k = ground (arith, append-nil (d.wire ++ d.buffer))
      go (socket_disconnect false) k = (refl, refl)
      go socket_error k = (refl, o)
      go _ k = cc

  end-online :
      is_end e ≡ true
      → (online (on_event e d) ≡ online (on_event e (online d)))
        × (is_some (on_event e d).exit_status ≡ true)
        × (is_some (on_event e (online d)).exit_status ≡ true)
  unfolding on_event shutdown
  end-online k = go e k
    where
      go :
          (e : Event)
          → is_end e ≡ true
          → (online (on_event e d) ≡ online (on_event e (online d)))
            × (is_some (on_event e d).exit_status ≡ true)
            × (is_some (on_event e (online d)).exit_status ≡ true)
      go (socket_disconnect true) k = (ground (arith, append-nil (d.wire ++ d.buffer)), refl, refl)
      go stop_signal k = (ground (arith, append-nil (d.wire ++ d.buffer)), refl, refl)
      go _ k = cc

run-exited : (l : List Event) (d : Daemon) → is_some d.exit_status ≡ true → run l d ≡ d
unfolding run step
run-exited [] d x = refl
run-exited (e ∷ l) d x = ground (arith, run-exited l d x)

-- Without the events that only tell of the connection.
abbrev pub kept : List Event → List Event
kept [] = []
kept (e ∷ l) = if is_loss e then kept l else e ∷ kept l

online-online : (d : Daemon) → online (online d) ≡ online d
online-online d = ap (λ w. record (online d) { wire = w }) (append-nil (d.wire ++ d.buffer))

-- The run of a daemon that has not ended.
run-running :
    (e : Event) (l : List Event) (d : Daemon)
    → is_some d.exit_status ≡ false
    → run (e ∷ l) d ≡ run l (on_event e d)
unfolding run step
run-running e l d n = ground arith

kept-loss : (e : Event) (l : List Event) → is_loss e ≡ true → kept (e ∷ l) ≡ kept l
kept-loss e l k = ground arith

kept-other : (e : Event) (l : List Event) → is_loss e ≡ false → kept (e ∷ l) ≡ e ∷ kept l
kept-other e l k = ground arith

-- From a state in which nothing waits while there is a connection, a run of the daemon with any
-- losses and returns of the connection ends, once what waits has been added to what was sent, as
-- the same run of a daemon that is connected all along: the same messages in the same order, and
-- the same runners and children.
pub run-online :
    (l : List Event) (d : Daemon)
    → IsOrdered d
    → online (run l d) ≡ online (run (kept l) (online d))
unfolding run
run-online [] d o = sym (online-online d)
run-online (e ∷ l) d o = elim (Bool-cases (is_some d.exit_status)) [
  | inl ended ↦
      ap online (run-exited (e ∷ l) d ended)
      ∙ sym (online-online d)
      ∙ sym (ap online (run-exited (kept (e ∷ l)) (online d) ended))
  | inr runs ↦ elim (Bool-cases (is_loss e)) [
    | inl loss ↦
        ap online (run-running e l d runs)
        ∙ run-online l (on_event e d) ((loss-online e d loss o).1)
        ∙ ap (λ x. online (run (kept l) x)) ((loss-online e d loss o).0)
        ∙ sym (ap (λ x. online (run x (online d))) (kept-loss e l loss))
    | inr no_loss ↦
        (elim (Bool-cases (is_end e)) [
          | inl last ↦
              ap online (run-running e l d runs)
              ∙ ap online (run-exited l (on_event e d) ((end-online e d last).1))
              ∙ (end-online e d last).0
              ∙ sym (
                  ap online (run-exited (kept l) (on_event e (online d)) ((end-online e d last).2)))
          | inr further ↦
              ap online (run-running e l d runs)
              ∙ run-online l (on_event e d) ((on_event-Steady e d o no_loss further).1)
              ∙ ap (λ x. online (run (kept l) x)) ((on_event-Steady e d o no_loss further).0)
        ])
        ∙ sym (ap online (run-running e (kept l) (online d) runs))
        ∙ sym (ap (λ x. online (run x (online d))) (kept-other e l no_loss))
  ]
]
