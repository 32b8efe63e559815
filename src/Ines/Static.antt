-- ===== src/Ines/Static.antt =====
-- ines/static.go: the cartridge that picks the mapper's method by the mapper's number.
use dendy.Prelude.{ℕ, ◌==◌, if◌then◌else◌, Bool, Option, none, some, ◌>>=◌}
use dendy.Binario.Writer.{Writer}
use dendy.Binario.Reader.{Reader}
use dendy.Ines.Rom.{Rom}
use dendy.Ines.Cartridge.{Cartridge, mapper0, mapper1, mapper2, mapper3, mapper4, mapper7}
use dendy.Ines.Mapper0
use dendy.Ines.Mapper0.{Mapper0}
use dendy.Ines.Mapper1
use dendy.Ines.Mapper1.{Mapper1}
use dendy.Ines.Mapper2
use dendy.Ines.Mapper2.{Mapper2}
use dendy.Ines.Mapper3
use dendy.Ines.Mapper3.{Mapper3}
use dendy.Ines.Mapper4
use dendy.Ines.Mapper4.{Mapper4}
use dendy.Ines.Mapper7
use dendy.Ines.Mapper7.{Mapper7}

pub record StaticCartridge : Type 0 where
  pub mapper_id : ℕ  -- uint8
  pub mapper : Cartridge

-- `none` is the error of an unsupported mapper.
unfoldable pub new_static_cartridge : Rom → Option StaticCartridge
new_static_cartridge rom =
    let id = rom.mapper_id in
    if id == 0
    then some (record { mapper_id = id; mapper = mapper0 (Mapper0.new rom) })
    else if id == 1
    then some (record { mapper_id = id; mapper = mapper1 (Mapper1.new rom) })
    else if id == 2
    then some (record { mapper_id = id; mapper = mapper2 (Mapper2.new rom) })
    else if id == 3
    then some (record { mapper_id = id; mapper = mapper3 (Mapper3.new rom) })
    else if id == 4
    then some (record { mapper_id = id; mapper = mapper4 (Mapper4.new rom) })
    else if id == 7
    then some (record { mapper_id = id; mapper = mapper7 (Mapper7.new rom) })
    else none

-- The type assertions `c.mapper.(*Mapper0)` and so on; `none` is the panic.
abbrev as_mapper0 : Cartridge → Option Mapper0
as_mapper0 (mapper0 m) = some m
as_mapper0 c = none

abbrev as_mapper1 : Cartridge → Option Mapper1
as_mapper1 (mapper1 m) = some m
as_mapper1 c = none

abbrev as_mapper2 : Cartridge → Option Mapper2
as_mapper2 (mapper2 m) = some m
as_mapper2 c = none

abbrev as_mapper3 : Cartridge → Option Mapper3
as_mapper3 (mapper3 m) = some m
as_mapper3 c = none

abbrev as_mapper4 : Cartridge → Option Mapper4
as_mapper4 (mapper4 m) = some m
as_mapper4 c = none

abbrev as_mapper7 : Cartridge → Option Mapper7
as_mapper7 (mapper7 m) = some m
as_mapper7 c = none

-- `switch c.mapperID`, with its panic.
abbrev switch {ℓ} :
    {A : Type ℓ} → ℕ → Option A → Option A → Option A → Option A → Option A → Option A → Option A
switch id case0 case1 case2 case3 case4 case7 =
    if id == 0
    then case0
    else if id == 1
    then case1
    else if id == 2
    then case2
    else if id == 3
    then case3
    else if id == 4
    then case4
    else if id == 7
    then case7
    else none

unfoldable pub reset : StaticCartridge → Option StaticCartridge
reset c =
    switch c.mapper_id
      (do
        m ← as_mapper0 c.mapper
        let next = Mapper0.reset m
        some (record c { mapper = mapper0 next }))
      (do
        m ← as_mapper1 c.mapper
        let next = Mapper1.reset m
        some (record c { mapper = mapper1 next }))
      (do
        m ← as_mapper2 c.mapper
        let next = Mapper2.reset m
        some (record c { mapper = mapper2 next }))
      (do
        m ← as_mapper3 c.mapper
        let next = Mapper3.reset m
        some (record c { mapper = mapper3 next }))
      (do
        m ← as_mapper4 c.mapper
        next ← Mapper4.reset m
        some (record c { mapper = mapper4 next }))
      (do
        m ← as_mapper7 c.mapper
        let next = Mapper7.reset m
        some (record c { mapper = mapper7 next }))

unfoldable pub scanline_tick : StaticCartridge → Option StaticCartridge
scanline_tick c =
    switch c.mapper_id
      (do m ← as_mapper0 c.mapper; some (record c { mapper = mapper0 (Mapper0.scanline_tick m) }))
      (do m ← as_mapper1 c.mapper; some (record c { mapper = mapper1 (Mapper1.scanline_tick m) }))
      (do m ← as_mapper2 c.mapper; some (record c { mapper = mapper2 (Mapper2.scanline_tick m) }))
      (do m ← as_mapper3 c.mapper; some (record c { mapper = mapper3 (Mapper3.scanline_tick m) }))
      (do m ← as_mapper4 c.mapper; some (record c { mapper = mapper4 (Mapper4.scanline_tick m) }))
      (do m ← as_mapper7 c.mapper; some (record c { mapper = mapper7 (Mapper7.scanline_tick m) }))

unfoldable pub pending_irq : StaticCartridge → Option (Bool × StaticCartridge)
pending_irq c =
    switch c.mapper_id
      (do
        m ← as_mapper0 c.mapper
        let (irq, next) = Mapper0.pending_irq m
        some (irq, record c { mapper = mapper0 next }))
      (do
        m ← as_mapper1 c.mapper
        let (irq, next) = Mapper1.pending_irq m
        some (irq, record c { mapper = mapper1 next }))
      (do
        m ← as_mapper2 c.mapper
        let (irq, next) = Mapper2.pending_irq m
        some (irq, record c { mapper = mapper2 next }))
      (do
        m ← as_mapper3 c.mapper
        let (irq, next) = Mapper3.pending_irq m
        some (irq, record c { mapper = mapper3 next }))
      (do
        m ← as_mapper4 c.mapper
        let (irq, next) = Mapper4.pending_irq m
        some (irq, record c { mapper = mapper4 next }))
      (do
        m ← as_mapper7 c.mapper
        let (irq, next) = Mapper7.pending_irq m
        some (irq, record c { mapper = mapper7 next }))

unfoldable pub mirror_mode : StaticCartridge → Option ℕ
mirror_mode c =
    switch c.mapper_id (do m ← as_mapper0 c.mapper; Mapper0.mirror_mode m)
      (do m ← as_mapper1 c.mapper; Mapper1.mirror_mode m)
      (do m ← as_mapper2 c.mapper; Mapper2.mirror_mode m)
      (do m ← as_mapper3 c.mapper; Mapper3.mirror_mode m)
      (do m ← as_mapper4 c.mapper; Mapper4.mirror_mode m)
      (do m ← as_mapper7 c.mapper; Mapper7.mirror_mode m)

unfoldable pub read_prg : StaticCartridge → ℕ → Option ℕ
read_prg c addr =
    switch c.mapper_id (do m ← as_mapper0 c.mapper; Mapper0.read_prg m addr)
      (do m ← as_mapper1 c.mapper; Mapper1.read_prg m addr)
      (do m ← as_mapper2 c.mapper; Mapper2.read_prg m addr)
      (do m ← as_mapper3 c.mapper; Mapper3.read_prg m addr)
      (do m ← as_mapper4 c.mapper; Mapper4.read_prg m addr)
      (do m ← as_mapper7 c.mapper; Mapper7.read_prg m addr)

unfoldable pub write_prg : StaticCartridge → ℕ → ℕ → Option StaticCartridge
write_prg c addr value =
    switch c.mapper_id
      (do
        m ← as_mapper0 c.mapper
        next ← Mapper0.write_prg m addr value
        some (record c { mapper = mapper0 next }))
      (do
        m ← as_mapper1 c.mapper
        next ← Mapper1.write_prg m addr value
        some (record c { mapper = mapper1 next }))
      (do
        m ← as_mapper2 c.mapper
        next ← Mapper2.write_prg m addr value
        some (record c { mapper = mapper2 next }))
      (do
        m ← as_mapper3 c.mapper
        next ← Mapper3.write_prg m addr value
        some (record c { mapper = mapper3 next }))
      (do
        m ← as_mapper4 c.mapper
        next ← Mapper4.write_prg m addr value
        some (record c { mapper = mapper4 next }))
      (do
        m ← as_mapper7 c.mapper
        next ← Mapper7.write_prg m addr value
        some (record c { mapper = mapper7 next }))

unfoldable pub read_chr : StaticCartridge → ℕ → Option ℕ
read_chr c addr =
    switch c.mapper_id (do m ← as_mapper0 c.mapper; Mapper0.read_chr m addr)
      (do m ← as_mapper1 c.mapper; Mapper1.read_chr m addr)
      (do m ← as_mapper2 c.mapper; Mapper2.read_chr m addr)
      (do m ← as_mapper3 c.mapper; Mapper3.read_chr m addr)
      (do m ← as_mapper4 c.mapper; Mapper4.read_chr m addr)
      (do m ← as_mapper7 c.mapper; Mapper7.read_chr m addr)

unfoldable pub write_chr : StaticCartridge → ℕ → ℕ → Option StaticCartridge
write_chr c addr value =
    switch c.mapper_id
      (do
        m ← as_mapper0 c.mapper
        next ← Mapper0.write_chr m addr value
        some (record c { mapper = mapper0 next }))
      (do
        m ← as_mapper1 c.mapper
        next ← Mapper1.write_chr m addr value
        some (record c { mapper = mapper1 next }))
      (do
        m ← as_mapper2 c.mapper
        next ← Mapper2.write_chr m addr value
        some (record c { mapper = mapper2 next }))
      (do
        m ← as_mapper3 c.mapper
        next ← Mapper3.write_chr m addr value
        some (record c { mapper = mapper3 next }))
      (do
        m ← as_mapper4 c.mapper
        next ← Mapper4.write_chr m addr value
        some (record c { mapper = mapper4 next }))
      (do
        m ← as_mapper7 c.mapper
        next ← Mapper7.write_chr m addr value
        some (record c { mapper = mapper7 next }))

unfoldable pub save_state : StaticCartridge → Writer → Option Writer
save_state c w =
    switch c.mapper_id (do m ← as_mapper0 c.mapper; some (Mapper0.save_state m w))
      (do m ← as_mapper1 c.mapper; some (Mapper1.save_state m w))
      (do m ← as_mapper2 c.mapper; some (Mapper2.save_state m w))
      (do m ← as_mapper3 c.mapper; some (Mapper3.save_state m w))
      (do m ← as_mapper4 c.mapper; some (Mapper4.save_state m w))
      (do m ← as_mapper7 c.mapper; some (Mapper7.save_state m w))

unfoldable pub load_state : StaticCartridge → Reader → Option (StaticCartridge × Bool × Reader)
load_state c r =
    switch c.mapper_id
      (do
        m ← as_mapper0 c.mapper
        let (next, ok, rest) = Mapper0.load_state m r
        some (record c { mapper = mapper0 next }, ok, rest))
      (do
        m ← as_mapper1 c.mapper
        let (next, ok, rest) = Mapper1.load_state m r
        some (record c { mapper = mapper1 next }, ok, rest))
      (do
        m ← as_mapper2 c.mapper
        let (next, ok, rest) = Mapper2.load_state m r
        some (record c { mapper = mapper2 next }, ok, rest))
      (do
        m ← as_mapper3 c.mapper
        let (next, ok, rest) = Mapper3.load_state m r
        some (record c { mapper = mapper3 next }, ok, rest))
      (do
        m ← as_mapper4 c.mapper
        let (next, ok, rest) = Mapper4.load_state m r
        some (record c { mapper = mapper4 next }, ok, rest))
      (do
        m ← as_mapper7 c.mapper
        let (next, ok, rest) = Mapper7.load_state m r
        some (record c { mapper = mapper7 next }, ok, rest))
