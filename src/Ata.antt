-- ===== src/Ata.antt =====
-- src/kernel/drivers/ata.c: sectors read and written through the ports of the drive. The ports are a
-- parameter: a state of the machine behind them and what a port instruction does to it. A wait that
-- ran out of fuel is `none`. The log lines are left out.
mod Drive
mod Transfer
mod Tests
use uami_os.Base.{
  ℕ, zero, suc, ◌+◌, ◌/◌, ◌%◌, ◌^◌, bit_and, bit_or, Bool, true, false, not, ◌||◌, Option, none,
  some, List, [], ◌∷◌, ◌++◌, ◌==◌, ◌!=◌, if◌then◌else◌, ◌>>=◌, take, drop, u8,
}

-- The instructions `in` and `out` on bytes and words.
pub record Ports (M : Type 0) : Type 0 where
  pub inb : ℕ → M → ℕ × M
  pub inw : ℕ → M → ℕ × M
  pub outb : ℕ → ℕ → M → M
  pub outw : ℕ → ℕ → M → M

-- `ATA_PRIMARY_BASE`, the value of `g_Base`, and the registers from it on.
abbrev pub base : ℕ
base = 0x1F0

abbrev pub reg_data : ℕ
reg_data = base

abbrev pub reg_seccount : ℕ
reg_seccount = base + 2

abbrev pub reg_lba0 : ℕ
reg_lba0 = base + 3

abbrev pub reg_lba1 : ℕ
reg_lba1 = base + 4

abbrev pub reg_lba2 : ℕ
reg_lba2 = base + 5

abbrev pub reg_drive : ℕ
reg_drive = base + 6

-- The register of the status, which is that of the command when it is written.
abbrev pub reg_status : ℕ
reg_status = base + 7

abbrev pub status_err : ℕ
status_err = 0x01

abbrev pub status_drq : ℕ
status_drq = 0x08

abbrev pub status_df : ℕ
status_df = 0x20

abbrev pub status_bsy : ℕ
status_bsy = 0x80

abbrev pub has : ℕ → ℕ → Bool
has status bit = bit_and status bit != 0

module _ {M : Type 0} (ports : Ports M) where
  unfoldable pub wait_bsy : ℕ → M → Option M
  wait_bsy zero m = none
  wait_bsy (suc fuel) m =
      let (status, m') = ports.inb reg_status m in
      let rest = wait_bsy fuel m' in if has status status_bsy then rest else some m'

  -- `ata_wait_drq`, with `left` of its 30000 rounds to go.
  unfoldable pub drq_loop : ℕ → M → Bool × M
  drq_loop zero m = (false, m)
  drq_loop (suc left) m =
      let (status, m') = ports.inb reg_status m in
      let rest = drq_loop left m' in
      if has status status_err
      then (false, m')
      else if has status status_df
      then (false, m')
      else if has status status_drq
      then (true, m')
      else rest

  abbrev pub wait_drq : M → Bool × M
  wait_drq = drq_loop 30000

  unfoldable pub select_lba : ℕ → ℕ → M → M
  select_lba lba count m =
      let m₁ = ports.outb reg_drive (bit_or 0xE0 (lba / 2 ^ 24 % 2 ^ 4)) m in
      let m₂ = ports.outb reg_seccount count m₁ in
      let m₃ = ports.outb reg_lba0 (u8 lba) m₂ in
      let m₄ = ports.outb reg_lba1 (u8 (lba / 2 ^ 8)) m₃ in
      ports.outb reg_lba2 (u8 (lba / 2 ^ 16)) m₄

  -- `count` words from the data register.
  unfoldable pub read_words : ℕ → M → List ℕ × M
  read_words zero m = ([], m)
  read_words (suc count) m =
      let (word, m') = ports.inw reg_data m in
      let (more, m'') = read_words count m' in (word ∷ more, m'')

  unfoldable pub write_words : List ℕ → M → M
  write_words [] m = m
  write_words (w ∷ ws) m = write_words ws (ports.outw reg_data w m)

  -- What `ATA_Initialize` returns, and the machine.
  unfoldable pub initialize : ℕ → M → Option (Bool × M)
  initialize fuel m =
      let m₁ = ports.outb reg_drive 0xA0 m in
      let m₂ = ports.outb reg_seccount 0 m₁ in
      let m₃ = ports.outb reg_lba0 0 m₂ in
      let m₄ = ports.outb reg_lba1 0 m₃ in
      let m₅ = ports.outb reg_lba2 0 m₄ in
      let m₆ = ports.outb reg_status 0xEC m₅ in
      let (status, m₇) = ports.inb reg_status m₆ in
      if status == 0 then some (false, m₇) else do
        m₈ ← wait_bsy fuel m₇
        let (low, m₉) = ports.inb reg_lba1 m₈
        let (high, m') = ports.inb reg_lba2 m₉
        let (ready, m'') = wait_drq m'
        some (
            if low != 0 || high != 0
            then (false, m')
            else if not ready
            then (false, m'')
            else (true, (read_words 256 m'').1))

  -- The sectors of a read: the words that arrived, and whether all did.
  unfoldable pub read_loop : ℕ → ℕ → M → Option (Bool × List ℕ × M)
  read_loop fuel zero m = some (true, [], m)
  read_loop fuel (suc left) m = do
    m₁ ← wait_bsy fuel m
    let (ready, m₂) = wait_drq m₁
    let (words, m₃) = read_words 256 m₂
    if not ready
        then some (false, [], m₂)
        else do (ok, more, m₄) ← read_loop fuel left m₃; some (ok, words ++ more, m₄)

  unfoldable pub read_sectors : ℕ → ℕ → ℕ → M → Option (Bool × List ℕ × M)
  read_sectors fuel lba count m = do
    m₁ ← wait_bsy fuel m
    read_loop fuel count (ports.outb reg_status 0x20 (select_lba lba count m₁))

  unfoldable pub write_loop : ℕ → ℕ → List ℕ → M → Option (Bool × M)
  write_loop fuel zero words m = some (true, m)
  write_loop fuel (suc left) words m = do
    m₁ ← wait_bsy fuel m
    let (ready, m₂) = wait_drq m₁
    if not ready
        then some (false, m₂)
        else write_loop fuel left (drop 256 words) (write_words (take 256 words) m₂)

  unfoldable pub write_sectors : ℕ → ℕ → ℕ → List ℕ → M → Option (Bool × M)
  write_sectors fuel lba count words m = do
    m₁ ← wait_bsy fuel m
    (ok, m₂) ← write_loop fuel count words (ports.outb reg_status 0x30 (select_lba lba count m₁))
    if not ok
        then some (false, m₂)
        else do m₃ ← wait_bsy fuel (ports.outb reg_status 0xE7 m₂); some (true, m₃)
