-- ===== src/Tasks/Links.antt =====
-- Tasks that are linked forwards, of ViOS64Bit/src/task/task.c, when one task of the list changes.
use vi_os.Prelude.{
  ℕ, ◌≡◌, refl, ap, ◌∙◌, ◌⊎◌, inl, inr, false, List, [], ◌∷◌, ◌++◌, Option, some, ok, load, ◌==◌,
  arith,
}
use vi_os.Tasks.{Task, TaskList}
use vi_os.Tasks.Rounds.{first, Linked}

-- The tasks `xs` are linked forwards.
abbrev pub Forward : List Task → List ℕ → Type 0
Forward tasks [] = Unit
Forward tasks (x ∷ xs) =
    ((node : Task) × (load tasks x ≡ ok node) × (node.next ≡ first xs)) × Forward tasks xs

abbrev pub Apart : ℕ → List ℕ → Type 0
Apart p [] = Unit
Apart p (x ∷ xs) = ((p == x) ≡ false) × Apart p xs

abbrev pub Distinct : List ℕ → Type 0
Distinct [] = Unit
Distinct (x ∷ xs) = Apart x xs × Distinct xs

-- The task behind the freed one, if there is one, still has the freed one before it.
abbrev pub Stale : TaskList → ℕ → List ℕ → Type 0
Stale list task [] = Unit
Stale list task (y ∷ rest) = (node : Task) × (load list.tasks y ≡ ok node) × (node.prev ≡ some task)

abbrev last_of : Option ℕ → List ℕ → Option ℕ
last_of before [] = before
last_of before (x ∷ xs) = last_of (some x) xs

pub Linked-behind :
    (tasks : List Task) (done xs : List ℕ) (before : Option ℕ)
    → Linked tasks before (done ++ xs)
    → Linked tasks (last_of before done) xs
Linked-behind tasks [] xs before linked = linked
Linked-behind tasks (x ∷ done) xs before linked = Linked-behind tasks done xs (some x) linked.1

pub Distinct-behind : (done xs : List ℕ) → Distinct (done ++ xs) → Distinct xs
Distinct-behind [] xs distinct = distinct
Distinct-behind (x ∷ done) xs distinct = Distinct-behind done xs distinct.1

pub Apart-at :
    (done : List ℕ) (x p : ℕ) (xs : List ℕ) → Apart x (done ++ (p ∷ xs)) → (p == x) ≡ false
Apart-at [] x p xs apart = ground (arith, apart.0)
Apart-at (y ∷ done) x p xs apart = Apart-at done x p xs apart.1

pub split_last : (xs : List ℕ) → (xs ≡ []) ⊎ ((done : List ℕ) × (p : ℕ) × (xs ≡ done ++ (p ∷ [])))
split_last [] = inl refl
split_last (x ∷ xs) = elim (split_last xs) [
  | inl e ↦ inr ([], x, ap (λ ys. x ∷ ys) e)
  | inr (done, p, e) ↦ inr (x ∷ done, p, ap (λ ys. x ∷ ys) e)
]

pub first_before :
    (done : List ℕ) (p : ℕ) (xs ys : List ℕ) → first (done ++ (p ∷ xs)) ≡ first (done ++ (p ∷ ys))
first_before [] p xs ys = refl
first_before (x ∷ done) p xs ys = refl

module _ (tasks tasks' : List Task) (p : ℕ)
    (others : (j : ℕ) → (p == j) ≡ false → load tasks' j ≡ load tasks j) where
  pub Forward-elsewhere :
      (xs : List ℕ) (before : Option ℕ) → Apart p xs → Linked tasks before xs → Forward tasks' xs
  Forward-elsewhere [] before apart linked = tt
  Forward-elsewhere (x ∷ xs) before apart linked =
      let (node, there, prev, next) = linked.0 in
      ((node, others x apart.0 ∙ there, next), Forward-elsewhere xs (some x) apart.1 linked.1)

  pub Stale-elsewhere :
      (list : TaskList) (task : ℕ) (rest : List ℕ)
      → list.tasks ≡ tasks'
      → Apart p rest
      → Linked tasks (some task) rest
      → Stale list task rest
  Stale-elsewhere list task [] e apart linked = tt
  Stale-elsewhere list task (y ∷ rest) e apart linked =
      let (node, there, prev, next) = linked.0 in
      (node, ap (λ ts. load ts y) e ∙ others y apart.0 ∙ there, prev)

  pub Forward-relinked :
      (done : List ℕ) (before : Option ℕ) (task : ℕ) (rest : List ℕ) (node : Task)
      → Linked tasks before (done ++ (p ∷ task ∷ rest))
      → Distinct (done ++ (p ∷ task ∷ rest))
      → load tasks' p ≡ ok node
      → node.next ≡ first rest
      → Forward tasks' (done ++ (p ∷ rest))
  Forward-relinked [] before task rest node linked distinct there next =
      ((node, there, next), Forward-elsewhere rest (some task) distinct.0.1 linked.1.1)
  Forward-relinked (x ∷ done) before task rest node linked distinct there next =
      let (node', there', prev', next') = linked.0 in
      (
        (
          node',
          others x (Apart-at done x p (task ∷ rest) distinct.0) ∙ there',
          next' ∙ first_before done p (task ∷ rest) rest,
        ),
        Forward-relinked done (some x) task rest node linked.1 distinct.1 there next,
      )
