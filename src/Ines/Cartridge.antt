-- ===== src/Ines/Cartridge.antt =====
-- ines/cartridge.go: a cartridge is one of the mappers, and a call of the interface is a call of the
-- mapper's method.
use dendy.Prelude.{ℕ, ◌==◌, if◌then◌else◌, Bool, Option, none, some}
use mathlib.Core.Option
use dendy.Binario.Writer.{Writer}
use dendy.Binario.Reader.{Reader}
use dendy.Ines.Rom.{Rom}
use dendy.Ines.Mapper0
use dendy.Ines.Mapper0.{Mapper0}
use dendy.Ines.Mapper1
use dendy.Ines.Mapper1.{Mapper1}
use dendy.Ines.Mapper2
use dendy.Ines.Mapper2.{Mapper2}
use dendy.Ines.Mapper3
use dendy.Ines.Mapper3.{Mapper3}
use dendy.Ines.Mapper4
use dendy.Ines.Mapper4.{Mapper4}
use dendy.Ines.Mapper7
use dendy.Ines.Mapper7.{Mapper7}

pub data Cartridge : Type 0 where
  mapper0 : Mapper0 → Cartridge
  mapper1 : Mapper1 → Cartridge
  mapper2 : Mapper2 → Cartridge
  mapper3 : Mapper3 → Cartridge
  mapper4 : Mapper4 → Cartridge
  mapper7 : Mapper7 → Cartridge

-- `none` is the error of an unsupported mapper.
unfoldable pub new_cartridge : Rom → Option Cartridge
new_cartridge rom =
    let id = rom.mapper_id in
    if id == 0
    then some (mapper0 (Mapper0.new rom))
    else if id == 1
    then some (mapper1 (Mapper1.new rom))
    else if id == 2
    then some (mapper2 (Mapper2.new rom))
    else if id == 3
    then some (mapper3 (Mapper3.new rom))
    else if id == 4
    then some (mapper4 (Mapper4.new rom))
    else if id == 7
    then some (mapper7 (Mapper7.new rom))
    else none

unfoldable pub reset : Cartridge → Option Cartridge
reset (mapper0 m) = some (mapper0 (Mapper0.reset m))
reset (mapper1 m) = some (mapper1 (Mapper1.reset m))
reset (mapper2 m) = some (mapper2 (Mapper2.reset m))
reset (mapper3 m) = some (mapper3 (Mapper3.reset m))
reset (mapper4 m) = Option.map mapper4 (Mapper4.reset m)
reset (mapper7 m) = some (mapper7 (Mapper7.reset m))

unfoldable pub scanline_tick : Cartridge → Cartridge
scanline_tick (mapper0 m) = mapper0 (Mapper0.scanline_tick m)
scanline_tick (mapper1 m) = mapper1 (Mapper1.scanline_tick m)
scanline_tick (mapper2 m) = mapper2 (Mapper2.scanline_tick m)
scanline_tick (mapper3 m) = mapper3 (Mapper3.scanline_tick m)
scanline_tick (mapper4 m) = mapper4 (Mapper4.scanline_tick m)
scanline_tick (mapper7 m) = mapper7 (Mapper7.scanline_tick m)

unfoldable pub pending_irq : Cartridge → Bool × Cartridge
pending_irq (mapper0 m) = let (irq, next) = Mapper0.pending_irq m in (irq, mapper0 next)
pending_irq (mapper1 m) = let (irq, next) = Mapper1.pending_irq m in (irq, mapper1 next)
pending_irq (mapper2 m) = let (irq, next) = Mapper2.pending_irq m in (irq, mapper2 next)
pending_irq (mapper3 m) = let (irq, next) = Mapper3.pending_irq m in (irq, mapper3 next)
pending_irq (mapper4 m) = let (irq, next) = Mapper4.pending_irq m in (irq, mapper4 next)
pending_irq (mapper7 m) = let (irq, next) = Mapper7.pending_irq m in (irq, mapper7 next)

unfoldable pub mirror_mode : Cartridge → Option ℕ
mirror_mode (mapper0 m) = Mapper0.mirror_mode m
mirror_mode (mapper1 m) = Mapper1.mirror_mode m
mirror_mode (mapper2 m) = Mapper2.mirror_mode m
mirror_mode (mapper3 m) = Mapper3.mirror_mode m
mirror_mode (mapper4 m) = Mapper4.mirror_mode m
mirror_mode (mapper7 m) = Mapper7.mirror_mode m

unfoldable pub read_prg : Cartridge → ℕ → Option ℕ
read_prg (mapper0 m) addr = Mapper0.read_prg m addr
read_prg (mapper1 m) addr = Mapper1.read_prg m addr
read_prg (mapper2 m) addr = Mapper2.read_prg m addr
read_prg (mapper3 m) addr = Mapper3.read_prg m addr
read_prg (mapper4 m) addr = Mapper4.read_prg m addr
read_prg (mapper7 m) addr = Mapper7.read_prg m addr

unfoldable pub write_prg : Cartridge → ℕ → ℕ → Option Cartridge
write_prg (mapper0 m) addr value = Option.map mapper0 (Mapper0.write_prg m addr value)
write_prg (mapper1 m) addr value = Option.map mapper1 (Mapper1.write_prg m addr value)
write_prg (mapper2 m) addr value = Option.map mapper2 (Mapper2.write_prg m addr value)
write_prg (mapper3 m) addr value = Option.map mapper3 (Mapper3.write_prg m addr value)
write_prg (mapper4 m) addr value = Option.map mapper4 (Mapper4.write_prg m addr value)
write_prg (mapper7 m) addr value = Option.map mapper7 (Mapper7.write_prg m addr value)

unfoldable pub read_chr : Cartridge → ℕ → Option ℕ
read_chr (mapper0 m) addr = Mapper0.read_chr m addr
read_chr (mapper1 m) addr = Mapper1.read_chr m addr
read_chr (mapper2 m) addr = Mapper2.read_chr m addr
read_chr (mapper3 m) addr = Mapper3.read_chr m addr
read_chr (mapper4 m) addr = Mapper4.read_chr m addr
read_chr (mapper7 m) addr = Mapper7.read_chr m addr

unfoldable pub write_chr : Cartridge → ℕ → ℕ → Option Cartridge
write_chr (mapper0 m) addr value = Option.map mapper0 (Mapper0.write_chr m addr value)
write_chr (mapper1 m) addr value = Option.map mapper1 (Mapper1.write_chr m addr value)
write_chr (mapper2 m) addr value = Option.map mapper2 (Mapper2.write_chr m addr value)
write_chr (mapper3 m) addr value = Option.map mapper3 (Mapper3.write_chr m addr value)
write_chr (mapper4 m) addr value = Option.map mapper4 (Mapper4.write_chr m addr value)
write_chr (mapper7 m) addr value = Option.map mapper7 (Mapper7.write_chr m addr value)

unfoldable pub save_state : Cartridge → Writer → Writer
save_state (mapper0 m) w = Mapper0.save_state m w
save_state (mapper1 m) w = Mapper1.save_state m w
save_state (mapper2 m) w = Mapper2.save_state m w
save_state (mapper3 m) w = Mapper3.save_state m w
save_state (mapper4 m) w = Mapper4.save_state m w
save_state (mapper7 m) w = Mapper7.save_state m w

unfoldable pub load_state : Cartridge → Reader → Cartridge × Bool × Reader
load_state (mapper0 m) r = let (next, ok, rest) = Mapper0.load_state m r in (mapper0 next, ok, rest)
load_state (mapper1 m) r = let (next, ok, rest) = Mapper1.load_state m r in (mapper1 next, ok, rest)
load_state (mapper2 m) r = let (next, ok, rest) = Mapper2.load_state m r in (mapper2 next, ok, rest)
load_state (mapper3 m) r = let (next, ok, rest) = Mapper3.load_state m r in (mapper3 next, ok, rest)
load_state (mapper4 m) r = let (next, ok, rest) = Mapper4.load_state m r in (mapper4 next, ok, rest)
load_state (mapper7 m) r = let (next, ok, rest) = Mapper7.load_state m r in (mapper7 next, ok, rest)
