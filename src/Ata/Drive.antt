-- ===== src/Ata/Drive.antt =====
-- What a drive does that follows the ATA standard, for the waits of src/kernel/drivers/ata.c.
use uami_os.Base.{
  ℕ, zero, suc, ◌+◌, ◌*◌, ◌/◌, ◌%◌, ◌^◌, ◌≤◌, ◌<◌, ◌≡◌, refl, true, false, some, List, [], ◌∷◌,
  ◌++◌, arith, length,
}
use uami_os.Ata.{
  Ports, reg_data, reg_seccount, reg_lba0, reg_lba1, reg_lba2, reg_drive, reg_status, status_err,
  status_drq, status_df, status_bsy, has, wait_bsy, drq_loop,
}

-- The registers that a command is given through.
pub record Registers : Type 0 where
  pub drive : ℕ
  pub count : ℕ
  pub lba0 : ℕ
  pub lba1 : ℕ
  pub lba2 : ℕ

-- The sector that the registers name; the high half of `drive` selects the mode and the drive.
abbrev pub lba_of : Registers → ℕ
lba_of r = r.lba0 + 2 ^ 8 * r.lba1 + 2 ^ 16 * r.lba2 + 2 ^ 24 * (r.drive % 16)

-- The words of `count` sectors from `lba` on.
unfoldable pub words_from : (ℕ → List ℕ) → ℕ → ℕ → List ℕ
words_from sector lba zero = []
words_from sector lba (suc count) = sector lba ++ words_from sector (lba + 1) count

module _ {M : Type 0} (ports : Ports M) where
  -- The drive stops being busy after at most `n` looks at its status.
  pub data Settles : ℕ → M → M → Type 0 where
    settled :
        (n : ℕ) (m : M)
        → has (ports.inb reg_status m).0 status_bsy ≡ false
        → Settles (suc n) m (ports.inb reg_status m).1
    busy :
        (n : ℕ) (m m' : M)
        → has (ports.inb reg_status m).0 status_bsy ≡ true
        → Settles n (ports.inb reg_status m).1 m'
        → Settles (suc n) m m'

  -- It asks for data after at most `n` looks, and reports no error before.
  pub data Asks : ℕ → M → M → Type 0 where
    asks :
        (n : ℕ) (m : M)
        → has (ports.inb reg_status m).0 status_err ≡ false
        → has (ports.inb reg_status m).0 status_df ≡ false
        → has (ports.inb reg_status m).0 status_drq ≡ true
        → Asks (suc n) m (ports.inb reg_status m).1
    waits :
        (n : ℕ) (m m' : M)
        → has (ports.inb reg_status m).0 status_err ≡ false
        → has (ports.inb reg_status m).0 status_df ≡ false
        → has (ports.inb reg_status m).0 status_drq ≡ false
        → Asks n (ports.inb reg_status m).1 m'
        → Asks (suc n) m m'

  pub wait_bsy-Settles : (fuel : ℕ) (m m' : M) → Settles fuel m m' → wait_bsy ports fuel m ≡ some m'
  unfolding wait_bsy
  wait_bsy-Settles _ _ _ (settled n m no_more) = rw (no_more) refl
  wait_bsy-Settles _ _ _ (busy n m m' yet more) = rw (yet) (wait_bsy-Settles n _ m' more)

  pub Settles-more : (n k : ℕ) (m m' : M) → n ≤ k → Settles n m m' → Settles k m m'
  Settles-more _ zero _ _ le (settled n m no_more) = absurd (omega arith)
  Settles-more _ (suc k) _ _ le (settled n m no_more) = settled k m no_more
  Settles-more _ zero _ _ le (busy n m m' yet more) = absurd (omega arith)
  Settles-more _ (suc k) _ _ le (busy n m m' yet more) =
      busy k m m' yet (Settles-more n k _ m' (omega arith) more)

  pub drq_loop-Asks : (left : ℕ) (m m' : M) → Asks left m m' → drq_loop ports left m ≡ (true, m')
  unfolding drq_loop
  drq_loop-Asks _ _ _ (asks n m a b c) = rw (a, b, c) refl
  drq_loop-Asks _ _ _ (waits n m m' a b c more) = rw (a, b, c) (drq_loop-Asks n _ m' more)

-- A drive in LBA mode. It holds 256 words for each sector. `Idle` are the states in which it takes a
-- command, with its registers; `Sends` those in which it has words to send.
pub record Drive {M : Type 0} (ports : Ports M) : Type 1 where
  pub sector_words : ℕ → List ℕ
  pub whole : (lba : ℕ) → length (sector_words lba) ≡ 256
  pub patience : ℕ
  pub Idle : Registers → M → Type 0
  pub Sends : List ℕ → M → Type 0
  pub idle_settles :
      (r : Registers) (m : M) → Idle r m → (m' : M) × Settles ports patience m m' × Idle r m'
  pub takes_drive :
      (r : Registers) (m : M) (v : ℕ)
      → Idle r m
      → Idle (record r { drive = v }) (ports.outb reg_drive v m)
  pub takes_count :
      (r : Registers) (m : M) (v : ℕ)
      → Idle r m
      → Idle (record r { count = v }) (ports.outb reg_seccount v m)
  pub takes_lba0 :
      (r : Registers) (m : M) (v : ℕ)
      → Idle r m
      → Idle (record r { lba0 = v }) (ports.outb reg_lba0 v m)
  pub takes_lba1 :
      (r : Registers) (m : M) (v : ℕ)
      → Idle r m
      → Idle (record r { lba1 = v }) (ports.outb reg_lba1 v m)
  pub takes_lba2 :
      (r : Registers) (m : M) (v : ℕ)
      → Idle r m
      → Idle (record r { lba2 = v }) (ports.outb reg_lba2 v m)
  pub reads :
      (r : Registers) (m : M)
      → Idle r m
      → r.drive / 16 ≡ 14
      → 0 < r.count
      → r.count < 256
      → Sends (words_from sector_words (lba_of r) r.count) (ports.outb reg_status 0x20 m)
  pub sends_settles :
      (ws : List ℕ) (m : M) → Sends ws m → (m' : M) × Settles ports patience m m' × Sends ws m'
  pub sends_asks :
      (w : ℕ) (ws : List ℕ) (m : M)
      → Sends (w ∷ ws) m
      → (m' : M) × Asks ports 30000 m m' × Sends (w ∷ ws) m'
  pub sends_word :
      (w : ℕ) (ws : List ℕ) (m : M)
      → Sends (w ∷ ws) m
      → ((ports.inw reg_data m).0 ≡ w) × Sends ws (ports.inw reg_data m).1
