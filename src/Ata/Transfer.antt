-- ===== src/Ata/Transfer.antt =====
-- `ATA_ReadSectors` of src/kernel/drivers/ata.c on a drive that does what the ATA standard says.
use uami_os.Base.{
  ℕ, zero, suc, ◌+◌, ◌/◌, ◌%◌, ◌^◌, ◌≤◌, ◌<◌, bit_or, ◌≡◌, refl, sym, ap, subst, ◌∙◌, true, some,
  List, [], ◌∷◌, ◌++◌, arith, ◌==◌, length, u8,
}
use uami_os.Ata.{
  Ports, reg_status, wait_bsy, drq_loop, select_lba, read_words, read_loop, read_sectors,
}
use uami_os.Ata.Drive.{
  Registers, Drive, lba_of, words_from, wait_bsy-Settles, drq_loop-Asks, Settles-more,
}
use uami_os.Base.Bytes.{passes_at, passes}

first_word : (l : List ℕ) → length l ≡ 256 → (w : ℕ) × (ws : List ℕ) × (l ≡ w ∷ ws)
first_word [] e = absurd (omega arith)
first_word (w ∷ ws) e = (w, ws, refl)

-- 0xE0 and a number of four bits.
select_bits : (x : ℕ) → x < 16 → bit_or 0xE0 x ≡ 0xE0 + x
unfolding passes
select_bits x lt = let all = passes_at (λ k. bit_or 0xE0 k == 0xE0 + k) 16 x refl lt in ground arith

module _ {M : Type 0} (ports : Ports M) (d : Drive ports) where
  settle_for :
      (fuel : ℕ) (ws : List ℕ) (m : M)
      → d.patience ≤ fuel
      → d.Sends ws m
      → (m' : M) × (wait_bsy ports fuel m ≡ some m') × d.Sends ws m'
  settle_for fuel ws m le h =
      let (m', s, h') = d.sends_settles ws m h in
      (m', wait_bsy-Settles ports fuel m m' (Settles-more ports d.patience fuel m m' le s), h')

  read_words-Sends :
      (ws rest : List ℕ) (m : M)
      → d.Sends (ws ++ rest) m
      → (m' : M) × (read_words ports (length ws) m ≡ (ws, m')) × d.Sends rest m'
  unfolding read_words
  read_words-Sends [] rest m h = (m, refl, h)
  read_words-Sends (w ∷ ws) rest m h =
      let (word, h') = d.sends_word w (ws ++ rest) m h in
      let (m', run, h'') = read_words-Sends ws rest _ h' in (m', rw (word, run) refl, h'')

  -- One sector, and the others.
  read_loop_round :
      (fuel count : ℕ) (m m₁ m₂ m₃ m₄ : M) (l rest : List ℕ)
      → wait_bsy ports fuel m ≡ some m₁
      → drq_loop ports 30000 m₁ ≡ (true, m₂)
      → read_words ports 256 m₂ ≡ (l, m₃)
      → read_loop ports fuel count m₃ ≡ some (true, rest, m₄)
      → read_loop ports fuel (suc count) m ≡ some (true, l ++ rest, m₄)
  unfolding read_loop
  read_loop_round fuel count m m₁ m₂ m₃ m₄ l rest a b c e = rw (a, b, c, e) refl

  read_loop-Sends :
      (fuel count lba : ℕ) (m : M)
      → d.patience ≤ fuel
      → d.Sends (words_from d.sector_words lba count) m
      → (m' : M) × (read_loop ports fuel count m
          ≡ some (true, words_from d.sector_words lba count, m'))
  unfolding read_loop words_from
  read_loop-Sends fuel zero lba m le h = (m, refl)
  read_loop-Sends fuel (suc count) lba m le h =
      let l = d.sector_words lba in
      let rest = words_from d.sector_words (lba + 1) count in
      let (w, ws, split) = first_word l (d.whole lba) in
      let (m₁, settled_run, h₁) = settle_for fuel (l ++ rest) m le h in
      let (m₂, asked, h₂) =
        d.sends_asks w (ws ++ rest) m₁ (subst (λ x. d.Sends (x ++ rest) m₁) split h₁) in
      let ready = drq_loop-Asks ports 30000 m₁ m₂ asked in
      let (m₃, words, h₃) =
        read_words-Sends l rest m₂ (subst (λ x. d.Sends (x ++ rest) m₂) (sym split) h₂) in
      let words' : read_words ports 256 m₂ ≡ (l, m₃) =
        ap (λ n. read_words ports n m₂) (sym (d.whole lba)) ∙ words in
      let (m₄, run) = read_loop-Sends fuel count (lba + 1) m₃ le h₃ in
      (m₄, read_loop_round fuel count m m₁ m₂ m₃ m₄ l rest settled_run ready words' run)

  -- The registers that `ata_select_lba` sets name the sector.
  selected :
      (r : Registers) (lba count : ℕ) (m : M)
      → lba < 2 ^ 28
      → d.Idle r m
      → (r' : Registers) × d.Idle r' (select_lba ports lba count m)
        × (r'.drive / 16 ≡ 14)
        × (lba_of r' ≡ lba)
        × (r'.count ≡ count)
  unfolding select_lba
  selected r lba count m small idle =
      let v = bit_or 0xE0 (lba / 2 ^ 24 % 2 ^ 4) in
      let i₁ = d.takes_drive r m v idle in
      let i₂ = d.takes_count _ _ count i₁ in
      let i₃ = d.takes_lba0 _ _ (u8 lba) i₂ in
      let i₄ = d.takes_lba1 _ _ (u8 (lba / 2 ^ 8)) i₃ in
      let i₅ = d.takes_lba2 _ _ (u8 (lba / 2 ^ 16)) i₄ in
      let bits : v ≡ 0xE0 + lba / 2 ^ 24 % 2 ^ 4 =
        select_bits (lba / 2 ^ 24 % 2 ^ 4) (omega arith) in
      (_, i₅, omega (arith, bits), omega (arith, bits), refl)

-- On a drive that takes commands, `ATA_ReadSectors` returns. It reports success and gives the words of
-- the `count` sectors from `lba` on, in order, for 1 to 255 sectors and a number of the first sector
-- below 2 ^ 28, if the waits may look at the status as often as the drive needs.
pub read_sectors-words :
    {M : Type 0} (ports : Ports M) (d : Drive ports) (fuel lba count : ℕ) (r : Registers) (m : M)
    → d.Idle r m
    → d.patience ≤ fuel
    → 0 < count
    → count < 256
    → lba < 2 ^ 28
    → (m' : M) × (read_sectors ports fuel lba count m
        ≡ some (true, words_from d.sector_words lba count, m'))
unfolding read_sectors
read_sectors-words ports d fuel lba count r m idle le some_sectors few small =
    let (m₁, s, idle') = d.idle_settles r m idle in
    let waited = wait_bsy-Settles ports fuel m m₁ (Settles-more ports d.patience fuel m m₁ le s) in
    let (r', ready, mode, at, n) = selected ports d r lba count m₁ small idle' in
    let sends =
      d.reads r' (select_lba ports lba count m₁) ready mode (omega (arith, n)) (omega (arith, n)) in
    let sends' =
      subst
        (λ x.
          d.Sends (words_from d.sector_words (lba_of r') x)
            (ports.outb reg_status 0x20 (select_lba ports lba count m₁)))
        n sends in
    let sends'' =
      subst
        (λ x.
          d.Sends (words_from d.sector_words x count)
            (ports.outb reg_status 0x20 (select_lba ports lba count m₁)))
        at sends' in
    let (m', run) = read_loop-Sends ports d fuel count lba _ le sends'' in (m', rw (waited) run)
