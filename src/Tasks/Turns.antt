-- ===== src/Tasks/Turns.antt =====
-- Each task of the list of ViOS64Bit/src/task/task.c gets its turn.
use mathlib.Core.Path.{subst}
use vi_os.Prelude.{
  ℕ, zero, suc, ◌+◌, ◌≡◌, refl, ap, sym, ◌∙◌, List, [], ◌∷◌, ◌++◌, append_assoc, Run, ok, ◌>>=◌,
  length, arith,
}
use vi_os.Tasks.{Task, TaskList, task_next}
use vi_os.Tasks.Rounds.{first, Running, task_next-turn}

-- The list after `n` calls of task_next.
unfoldable pub task_next_times : ℕ → TaskList → Run TaskList
task_next_times zero list = ok list
task_next_times (suc n) list = task_next list >>= λ (registers, list'). task_next_times n list'

-- After `n` calls the task between `done` and `waiting` runs.
abbrev pub After : ℕ → TaskList → List ℕ → ℕ → List ℕ → Type 0
After n list done x waiting =
    (list' : TaskList) × (task_next_times n list ≡ ok list') × Running list' done x waiting

After-next :
    (n : ℕ) (list list' : TaskList) (node : Task) (done : List ℕ) (x : ℕ) (waiting : List ℕ)
    → task_next list ≡ ok (node.registers, list')
    → After n list' done x waiting
    → After (suc n) list done x waiting
unfolding task_next_times
After-next n list list' node done x waiting e (list'', e', running) =
    (list'', rw (e, ◌>>=◌) e', running)

-- The tasks that wait run one after the other.
ahead :
    (list : TaskList) (done : List ℕ) (x : ℕ) (pre : List ℕ) (y : ℕ) (post : List ℕ)
    → Running list done x (pre ++ (y ∷ post))
    → After (suc (length pre)) list (done ++ (x ∷ pre)) y post
unfolding task_next_times
ahead list done x [] y post running =
    let (node, list', e, found, running') =
      task_next-turn list done x (y ∷ post) (done ++ (x ∷ [])) y post running refl
        (append_assoc done (x ∷ []) (y ∷ post)) in
    (list', rw (e, ◌>>=◌) refl, running')
ahead list done x (z ∷ pre) y post running =
    let (node, list', e, found, running') =
      task_next-turn list done x (z ∷ (pre ++ (y ∷ post))) (done ++ (x ∷ [])) z (pre ++ (y ∷ post))
        running refl (append_assoc done (x ∷ []) (z ∷ (pre ++ (y ∷ post)))) in
    After-next (suc (length pre)) list list' node (done ++ (x ∷ (z ∷ pre))) y post e (
      subst (λ d. After (suc (length pre)) list' d y post) (append_assoc done (x ∷ []) (z ∷ pre))
        (ahead list' (done ++ (x ∷ [])) z pre y post running'))

-- The calls from the running task to the first of the list, and `n` more.
abbrev calls : List ℕ → ℕ → ℕ
calls [] n = suc n
calls (z ∷ waiting) n = suc (calls waiting n)

calls-length : (waiting : List ℕ) (n : ℕ) → calls waiting n ≡ length waiting + 1 + n
calls-length [] n = omega arith
calls-length (z ∷ waiting) n = ap suc (calls-length waiting n) ∙ omega arith

around :
    (list : TaskList) (done : List ℕ) (x : ℕ) (waiting : List ℕ) (h : ℕ) (tl : List ℕ) (n : ℕ)
    (pre : List ℕ) (y : ℕ) (post : List ℕ)
    → Running list done x waiting
    → done ++ (x ∷ waiting) ≡ h ∷ tl
    → ((list' : TaskList) → Running list' [] h tl → After n list' pre y post)
    → After (calls waiting n) list pre y post
around list done x [] h tl n pre y post running same rest =
    let (node, list', e, found, running') =
      task_next-turn list done x [] [] h tl running (ap first same) (sym same) in
    After-next n list list' node pre y post e (rest list' running')
around list done x (z ∷ waiting) h tl n pre y post running same rest =
    let (node, list', e, found, running') =
      task_next-turn list done x (z ∷ waiting) (done ++ (x ∷ [])) z waiting running refl
        (append_assoc done (x ∷ []) (z ∷ waiting)) in
    After-next (calls waiting n) list list' node pre y post e (
      around list' (done ++ (x ∷ [])) z waiting h tl n pre y post running'
        (append_assoc done (x ∷ []) (z ∷ waiting) ∙ same) rest)

-- Each task of a list of tasks, one of which runs, gets its turn: the one with `pre` before it in the list runs
-- after one call of task_next for each task that waits behind the running one, one more, and one for each of `pre`.
pub task_next_times-After :
    (list : TaskList) (done : List ℕ) (x : ℕ) (waiting pre : List ℕ) (y : ℕ) (post : List ℕ)
    → Running list done x waiting
    → done ++ (x ∷ waiting) ≡ pre ++ (y ∷ post)
    → (list' : TaskList) × (task_next_times (length waiting + 1 + length pre) list ≡ ok list')
      × Running list' pre y post
unfolding task_next_times
task_next_times-After list done x waiting [] y post running same =
    subst (λ n. After n list [] y post) (calls-length waiting 0)
      (around list done x waiting y post 0 [] y post running same
        (λ list' running'. (list', refl, running')))
task_next_times-After list done x waiting (z ∷ pre) y post running same =
    subst (λ n. After n list (z ∷ pre) y post) (calls-length waiting (suc (length pre)))
      (around list done x waiting z (pre ++ (y ∷ post)) (suc (length pre)) (z ∷ pre) y post running
        same (λ list' running'. ahead list' [] z pre y post running'))
