-- ===== src/Scheduler/Switch.antt =====
-- The stack frames of scheduler.c and scheduler_asm.asm: what `pushad` saves, `popad; ret` restores.
use uami_os.Base.{
  ℕ, zero, suc, ◌+◌, ◌-◌, ◌*◌, ◌^◌, ◌≤◌, ◌<◌, ◌≡◌, refl, ap, ◌∙◌, List, [], ◌∷◌, arith, ==_ne,
  ==_self, length, get_or, u32, sub_u32,
}
use uami_os.Scheduler.{Cpu, store, push_words, pushad, popad_ret}

-- `m` is `memory` with the words `vs` pushed at `sp`, the last of them at `sp'`.
pub record Pushed (vs : List ℕ) (sp : ℕ) (memory : ℕ → ℕ) (sp' : ℕ) (m : ℕ → ℕ) : Type 0 where
  pub top : sp' + 4 * length vs ≡ sp
  pub words : (i : ℕ) → i < length vs → m (sp - 4 * (i + 1)) ≡ get_or vs i 0
  pub above : (a : ℕ) → sp ≤ a → m a ≡ memory a
  pub below : (a : ℕ) → a < sp' → m a ≡ memory a

store_self : (memory : ℕ → ℕ) (a v : ℕ) → store memory a v a ≡ v
store_self memory a v = rw (==_self a)

-- The words of a longer push: the first is just above the rest.
word_at :
    (v : ℕ) (vs : List ℕ) (sp sp₁ : ℕ) (memory m : ℕ → ℕ) {sp' : ℕ}
    → sp ≡ sp₁ + 4
    → memory sp₁ ≡ v
    → Pushed vs sp₁ memory sp' m
    → (i : ℕ) → i < length (v ∷ vs)
    → m (sp - 4 * (i + 1)) ≡ get_or (v ∷ vs) i 0
word_at v vs sp sp₁ memory m e written ih zero lt =
    let a : sp - 4 * (0 + 1) ≡ sp₁ = omega arith in ap m a ∙ ih.above sp₁ (omega arith) ∙ written
word_at v vs sp sp₁ memory m e written ih (suc i) lt =
    let a : sp - 4 * (suc i + 1) ≡ sp₁ - 4 * (i + 1) = omega arith in
    ap m a ∙ ih.words i (omega arith)

pub push_words-Pushed :
    (vs : List ℕ) (sp : ℕ) (memory : ℕ → ℕ)
    → 4 * length vs ≤ sp
    → sp < 2 ^ 32
    → let (sp', m) = push_words vs sp memory in Pushed vs sp memory sp' m
unfolding push_words
push_words-Pushed [] sp memory fits small = record {
  top = omega arith;
  words = λ i lt. absurd (omega arith);
  above = λ a h. refl;
  below = λ a h. refl;
}
push_words-Pushed (v ∷ vs) sp memory fits small =
    let sp₁ = sub_u32 sp 4 in
    let ih = push_words-Pushed vs sp₁ (store memory sp₁ v) (omega arith) (omega arith) in
    record {
      top = omega (arith, ih.top);
      words = word_at v vs sp sp₁ (store memory sp₁ v) _ (omega arith) (store_self memory sp₁ v) ih;
      above = λ a h. ih.above a (omega arith) ∙ rw (==_ne a sp₁ (omega arith));
      below = λ a h. ih.below a h ∙ rw (==_ne a sp₁ (omega (arith, ih.top)));
    }

-- A frame of nine words at `sp` that `popad; ret` takes for the state `c` with the stack empty again.
pub record Frame (c : Cpu) (sp : ℕ) (m : ℕ → ℕ) : Type 0 where
  pub edi : m sp ≡ c.edi
  pub esi : m (sp + 4) ≡ c.esi
  pub ebp : m (sp + 8) ≡ c.ebp
  pub ebx : m (sp + 16) ≡ c.ebx
  pub edx : m (sp + 20) ≡ c.edx
  pub ecx : m (sp + 24) ≡ c.ecx
  pub eax : m (sp + 28) ≡ c.eax
  pub eip : m (sp + 32) ≡ c.eip
  pub esp : sp + 36 ≡ c.esp

-- `popad; ret` on a frame gives the state that the frame stands for.
pub popad_ret-Frame :
    (c : Cpu) (sp : ℕ) (m : ℕ → ℕ) → Frame c sp m → c.esp < 2 ^ 32 → popad_ret sp m ≡ c
unfolding popad_ret
popad_ret-Frame c sp m f small =
    let at : (n : ℕ) → n ≤ 36 → u32 (sp + n) ≡ sp + n = λ n h. omega (arith, f.esp) in
    rw
      (
        at 4 (omega arith),
        at 8 (omega arith),
        at 16 (omega arith),
        at 20 (omega arith),
        at 24 (omega arith),
        at 28 (omega arith),
        at 32 (omega arith),
        at 36 (omega arith),
      )
      (λ i. record {
        eax = f.eax i;
        ecx = f.ecx i;
        edx = f.edx i;
        ebx = f.ebx i;
        esp = f.esp i;
        ebp = f.ebp i;
        esi = f.esi i;
        edi = f.edi i;
        eip = f.eip i;
      })

-- The state in which the caller of `Scheduler_Switch` goes on.
abbrev pub resumed : Cpu → (ℕ → ℕ) → Cpu
resumed c memory = record c { eip = memory c.esp; esp = c.esp + 4 }

module _ (c : Cpu) (memory : ℕ → ℕ) (fits : 32 ≤ c.esp) (small : c.esp + 4 < 2 ^ 32) where
  pub pushad-Pushed :
      let (sp, m) = pushad c memory in
      Pushed (c.eax ∷ c.ecx ∷ c.edx ∷ c.ebx ∷ c.esp ∷ c.ebp ∷ c.esi ∷ c.edi ∷ []) c.esp memory sp m
  unfolding pushad
  pushad-Pushed =
      push_words-Pushed (c.eax ∷ c.ecx ∷ c.edx ∷ c.ebx ∷ c.esp ∷ c.ebp ∷ c.esi ∷ c.edi ∷ []) c.esp
        memory fits (omega arith)

  -- `pushad` on top of the return address makes a frame for the caller's state.
  pub pushad-Frame : let (sp, m) = pushad c memory in Frame (resumed c memory) sp m
  pushad-Frame =
      let p = pushad-Pushed in
      let sp = (pushad c memory).0 in
      let m = (pushad c memory).1 in
      let top : sp + 32 ≡ c.esp = p.top in
      record {
        edi = ap m (omega (arith, top)) ∙ p.words 7 (omega arith);
        esi = ap m (omega (arith, top)) ∙ p.words 6 (omega arith);
        ebp = ap m (omega (arith, top)) ∙ p.words 5 (omega arith);
        ebx = ap m (omega (arith, top)) ∙ p.words 3 (omega arith);
        edx = ap m (omega (arith, top)) ∙ p.words 2 (omega arith);
        ecx = ap m (omega (arith, top)) ∙ p.words 1 (omega arith);
        eax = ap m (omega (arith, top)) ∙ p.words 0 (omega arith);
        eip = ap m top ∙ p.above c.esp (omega arith);
        esp = omega (arith, top);
      }
