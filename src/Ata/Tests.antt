-- ===== src/Ata/Tests.antt =====
-- A drive that is never busy, and a read from it.
use uami_os.Base.{
  ℕ, ◌≡◌, refl, ap, true, some, List, [], ◌∷◌, arith, ◌==◌, if◌then◌else◌, replicate,
  length-replicate,
}
use uami_os.Ata.{Ports, reg_seccount, reg_lba0, reg_lba1, reg_lba2, reg_drive, read_sectors}
use uami_os.Ata.Drive.{Registers, Drive, lba_of, words_from, settled, asks}
use uami_os.Ata.Transfer.{read_sectors-words}

abbrev Machine : Type 0
Machine = Registers × List ℕ

-- Each word of a sector is the number of the sector.
abbrev numbered : ℕ → List ℕ
numbered lba = replicate 256 lba

abbrev first_of : List ℕ → ℕ
first_of [] = 0
first_of (w ∷ ws) = w

abbrev rest_of : List ℕ → List ℕ
rest_of [] = []
rest_of (w ∷ ws) = ws

abbrev out : ℕ → ℕ → Machine → Machine
out port v (r, ws) =
    if port == reg_drive
    then (record r { drive = v }, ws)
    else if port == reg_seccount
    then (record r { count = v }, ws)
    else if port == reg_lba0
    then (record r { lba0 = v }, ws)
    else if port == reg_lba1
    then (record r { lba1 = v }, ws)
    else if port == reg_lba2
    then (record r { lba2 = v }, ws)
    else (r, words_from numbered (lba_of r) r.count)

abbrev quick : Ports Machine
quick = record {
  inb = λ port m. (0x08, m);
  inw = λ port m. (first_of m.1, (m.0, rest_of m.1));
  outb = out;
  outw = λ port v m. m;
}

quick-Drive : Drive quick
quick-Drive = record {
  sector_words = numbered;
  whole = λ lba. length-replicate 256 lba;
  patience = 1;
  Idle = λ r m. m.0 ≡ r;
  Sends = λ ws m. m.1 ≡ ws;
  idle_settles = λ r m i. (m, settled 0 m refl, i);
  takes_drive = λ r m v i. ap {A = Registers} {B = Registers} (λ x. record x { drive = v }) i;
  takes_count = λ r m v i. ap {A = Registers} {B = Registers} (λ x. record x { count = v }) i;
  takes_lba0 = λ r m v i. ap {A = Registers} {B = Registers} (λ x. record x { lba0 = v }) i;
  takes_lba1 = λ r m v i. ap {A = Registers} {B = Registers} (λ x. record x { lba1 = v }) i;
  takes_lba2 = λ r m v i. ap {A = Registers} {B = Registers} (λ x. record x { lba2 = v }) i;
  reads = λ r m i mode low high. ap (λ x. words_from numbered (lba_of x) x.count) i;
  sends_settles = λ ws m h. (m, settled 0 m refl, h);
  sends_asks = λ w ws m h. (m, asks 29999 m refl refl refl, h);
  sends_word = λ w ws m h. (ap first_of h, ap rest_of h);
}

abbrev idle : Machine
idle = (record { drive = 0; count = 0; lba0 = 0; lba1 = 0; lba2 = 0 }, [])

read_sectors-words_example :
    (m' : Machine) × (read_sectors quick 1 2050 2 idle
      ≡ some (true, words_from numbered 2050 2, m'))
unfolding quick-Drive
read_sectors-words_example =
    read_sectors-words quick quick-Drive 1 2050 2 idle.0 idle refl (omega arith) (omega arith)
      (omega arith) (omega arith)
