-- ===== src/Thread/Ids.antt =====
-- The ids that `Thread_Create` gives out, and what `Thread_Kill` and `Thread_GetInfo` make of an id.
use uami_os.Base.{
  ℕ, zero, suc, ◌+◌, ◌-◌, ◌≤◌, ◌<◌, ◌≡◌, refl, ap, ◌∙◌, ◌⊎◌, inl, inr, true, false, none, some,
  List, [], ◌∷◌, arith, leb, ◌==◌, ==_iff, ==_ne, length, take, c_string, ℤ, pos, negsuc,
}
use uami_os.Pmm.Invariant as PmmValid
use uami_os.Scheduler
use uami_os.Scheduler.{Kernel, TaskState, ready, dead, copy_name, task_at}
use uami_os.Scheduler.Invariant.{IsValid, state_of}
use uami_os.Scheduler.Create.{create_task_lem, created, table_full, no_page, NoPage-task_count}
use uami_os.Scheduler.Name.{IsText, c_string-copy_name}
use uami_os.Thread.{create, kill, get_info, ThreadInfo}

module _ (name : List ℕ) (entry : ℕ) (k : Kernel) where
  abbrev Ids : Type 0
  Ids =
      (id : ℤ) × (k' : Kernel) × (create name entry k ≡ some (id, k'))
      × IsValid k'
      × (((id ≡ negsuc 0) × (k'.task_count ≡ k.task_count))
          ⊎ ((id ≡ pos k.task_count)
              × (k'.task_count ≡ k.task_count + 1)
              × (state_of k'.tasks k.task_count ≡ ready)))

  not_added :
      (k' : Kernel)
      → Scheduler.create_task name entry k ≡ some k'
      → IsValid k'
      → k'.task_count ≡ k.task_count
      → Ids
  unfolding create Scheduler.get_task_count
  not_added k' run v' same =
      (negsuc 0, k', rw (run, (==_iff k'.task_count k.task_count).1 same), v', inl (refl, same))

-- `Thread_Create` returns. Either it gives -1 and no slot has been added, or it gives the index of
-- the slot after the last, which now holds a ready task.
pub create_ids :
    (name : List ℕ) (entry : ℕ) (k : Kernel)
    → IsValid k
    → PmmValid.IsValid k.pmm
    → (id : ℤ) × (k' : Kernel) × (create name entry k ≡ some (id, k'))
      × IsValid k'
      × (((id ≡ negsuc 0) × (k'.task_count ≡ k.task_count))
          ⊎ ((id ≡ pos k.task_count)
              × (k'.task_count ≡ k.task_count + 1)
              × (state_of k'.tasks k.task_count ≡ ready)))
unfolding create Scheduler.get_task_count
create_ids name entry k v w =
    let (k', run, v', w', out) = create_task_lem name entry k v w in
    elim out [
      | table_full t ↦ not_added name entry k k' run v' (ap (λ x. x.task_count) t.same)
      | no_page n ↦ not_added name entry k k' run v' (NoPage-task_count k k' n)
      | created stack c ↦
          let ne : (k'.task_count == k.task_count) ≡ false = ==_ne _ _ (omega (arith, c.counted)) in
          let id : k'.task_count - 1 ≡ k.task_count = omega (arith, c.counted) in
          (pos k.task_count, k', rw (run, ne, id), v', inr (refl, c.counted, c.is_ready))
    ]

-- `Thread_Kill` says no, and changes nothing, for a negative id, the idle task and an id that was
-- not given out.
pub kill_refuses :
    (id : ℤ) (k : Kernel)
    → ((i : ℕ) → id ≡ pos i → (i ≡ 0) ⊎ (k.task_count ≤ i))
    → kill id k ≡ some (false, k)
unfolding kill Scheduler.get_task_count
kill_refuses (negsuc n) k h = refl
kill_refuses (pos i) k h = elim (h i refl) [ inl e ↦ rw e | inr out ↦ ground arith ]

c_string-IsText : (xs : List ℕ) → IsText (c_string xs)
c_string-IsText [] = tt
c_string-IsText (zero ∷ xs) = tt
c_string-IsText (suc c ∷ xs) = ((λ e. absurd (omega arith)), c_string-IsText xs)

take-IsText : (n : ℕ) (xs : List ℕ) → IsText xs → IsText (take n xs)
take-IsText zero xs t = tt
take-IsText (suc n) [] t = tt
take-IsText (suc n) (x ∷ xs) t = (t.0, take-IsText n xs t.1)

take-take : (n : ℕ) (xs : List ℕ) → take n (take n xs) ≡ take n xs
take-take zero xs = refl
take-take (suc n) [] = refl
take-take (suc n) (x ∷ xs) = ap (◌∷◌ x) (take-take n xs)

-- `Thread_GetInfo` of an index in the table gives the slot's state and count, and the first 31
-- characters of its name; of any other index it gives nothing.
pub get_info_lem :
    (i : ℕ) (buffer out : List ℕ) (k : Kernel)
    → 32 ≤ length buffer
    → 32 ≤ length out
    → (i < k.task_count
        → (info : ThreadInfo) × (get_info (pos i) buffer out k ≡ some info)
          × (info.id ≡ i)
          × (info.state ≡ state_of k.tasks i)
          × (info.schedule_count ≡ (task_at k.tasks i).schedule_count)
          × (c_string info.name ≡ take 31 (c_string (task_at k.tasks i).name)))
      × (k.task_count ≤ i → get_info (pos i) buffer out k ≡ none)
unfolding get_info Scheduler.get_task Scheduler.get_task_count
get_info_lem i buffer out k big big' = (
  λ lt.
      let t = task_at k.tasks i in
      let in_table : leb k.task_count i ≡ false = ground arith in
      let once = c_string-copy_name (c_string t.name) buffer (c_string-IsText t.name) big in
      let text : IsText (c_string (copy_name (c_string t.name) 0 buffer)) = c_string-IsText _ in
      (
        record {
          id = i;
          name = copy_name (c_string (copy_name (c_string t.name) 0 buffer)) 0 out;
          state = t.state;
          schedule_count = t.schedule_count;
        },
        rw in_table,
        refl,
        refl,
        refl,
        c_string-copy_name _ out text big' ∙ ap (take 31) once ∙ take-take 31 (c_string t.name),
      ),
  λ out_of. let e : leb k.task_count i ≡ true = ground arith in rw e,
)
