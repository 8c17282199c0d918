-- ===== src/FileSystem/Fsm.antt =====
-- What src/os/file_system.cc relies on of FSM_Switch, as the simulation kernel documents it.
use hecios.Prelude.{Bool, true, false, List, ◌++◌, Option, some, ◌≡◌}

-- `run` is what a message does, for given tests of states, exit code and entry code. It runs the
-- exit code of the state, and if that has an FSM_Goto, the entry code of the new state; if that
-- state is transient, its exit code comes in turn. Of exit code without an FSM_Goto nothing is
-- relied on.
pub record IsFsm {S M O : Type 0} (is_steady : S → Bool) (on_exit : S → M → Option (Option S))
    (on_enter : S → M → Option (List O)) (run : S → M → Option (S × List O)) : Type 0 where
  pub enters :
      (s t : S) (m : M) (sent : List O)
      → on_exit s m ≡ some (some t)
      → is_steady t ≡ true
      → on_enter t m ≡ some sent
      → run s m ≡ some (t, sent)
  pub passes :
      (s t u : S) (m : M) (sent more : List O)
      → on_exit s m ≡ some (some t)
      → is_steady t ≡ false
      → on_enter t m ≡ some sent
      → run t m ≡ some (u, more)
      → run s m ≡ some (u, sent ++ more)
