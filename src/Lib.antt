-- ===== src/Lib.antt =====
-- dendy, an NES emulator with rollback netplay.
--
-- Ringbuf: internal/ringbuf/buffer.go, the generic ring buffer that holds the players' inputs
-- (netplay/game.go) and the round-trip times. `Ringbuf` has the buffer and its methods in the
-- order of the Go code; `Deque` the bounded sequence that a buffer stands for; `Valid` the
-- invariant and the contents; `Push`, `Trunc`, `Access` and `Grow` the methods; `Calls` a call as
-- a value, of any method but Grow, with its run on a buffer and on a sequence; `Agree`,
-- `Looks` and `Refine` the comparison of the two.
--
-- Binario: internal/binario/, the encoding of save states and messages. `Writer` and `Reader` have
-- the methods of the two types over a bytes.Buffer; a writer is the list of bytes written, and a
-- reader gives what is left with each result. `RoundTrip` has the read of each kind of value,
-- `Values` the pairs of methods, and `VarUint` the numbers of variable length.
--
-- Input: input/joystick.go and input/zapper.go, the devices in the console's ports, and the
-- joystick's save state.
--
-- Netplay: netplay/game.go, the rollback. `Game` has the checkpoints, the game and its methods;
-- the three checkpoints are fields, so `save` and `rollback` come once for each. `Console` is the
-- interface of the console and its joysticks; its `play` stands for the loop of Tick until
-- FrameReady, and its frames, saves and loads may panic. `Outcome` is how an operation ends: a
-- result, a panic of the console or a panic of the game. Nothing is assumed of a console: the
-- program's save states leave fields out, so that a loaded state need not be the one saved.
-- `Snapshots` has the states that the confirmed inputs lead to, by frames and by saving and loading,
-- and `Steps` the calls of the console with what follows them; `Inputs` the buffers as windows on all
-- the inputs, and `Queues` the three buffers of a game; `Replay` and `Confirm` the two loops;
-- `Synced` the invariant of a game; `Delayed` processDelayedInput, `Frames` the operations from outside,
-- `Session` the games that these lead to, and `Peers` the two players side by side. The clock is an
-- argument: for each turn of a loop, whether the time that remains is too short.
--
-- Cpu: cpu/, the 6502 processor. `State` is cpu/cpu.go without Tick, and cpu/mem.go; `Addr` is
-- cpu/addr.go; `Official` and `Illegal` are the handlers of cpu/official.go and cpu/illegal.go;
-- `Opcodes` is the table of cpu/opcodes.go; `Tick` is CPU.Tick; `SaveState` is cpu/state.go. The
-- memory is a parameter, the interface `Memory` of cpu/mem.go over a type of its states: a read gives the byte and the
-- memory after it, since reads of the console's registers have effects. `Flags`, `Arith`,
-- `Stack`, `Interrupts`, `Table` and `Timing` hold what is shown of them. Facts on the stack take
-- as a hypothesis that page 1 of the memory is plain storage (`StackRam`), as it is on the bus of
-- the console.
--
-- Ines: ines/, the cartridge. `Rom` is ines/rom.go, with the parser of an iNES file as a function of
-- the file's bytes and of the CRC32 function, which is a parameter. `Mapper0` to `Mapper7` are the
-- mappers, each with its own copy of the ROM, which no other object changes. `Cartridge` is the
-- interface of ines/cartridge.go as a sum of the mappers, and `Static` the dispatch by number of
-- ines/static.go, with the panics of its type assertions; `Dispatch` compares the two over runs of
-- calls. `Loaded` is about ROMs from files, `Serial` about the serial port of MMC1; for MMC3,
-- `Banks`, `Access`, `Play` and `Run` keep its banks inside the ROM, `Scanlines` is its interrupt,
-- and `SaveWords` and `SaveState` its save state.
--
-- Apu: apu/, the audio unit. `Envelope`, `Square`, `Triangle`, `Noise` and `Dmc` are the channels'
-- parts, and `Unit` is apu/apu.go. The sample channel's callback is a parameter over a type of
-- states, since the read of a byte may change the console. `Bounds` and `Levels` bound the outputs,
-- and `Decay` is the envelope's volume over time.
--
-- Ppu: ppu/address.go, the address register of the picture unit. `Address` has its methods, `Scroll`
-- each of them as arithmetic, and `Position` the two increments as moves on a plane.
--
-- Relay: relay/ip_limiter.go, the limit of connections from one address. `IpLimiter` has its calls
-- and `Counts` runs of calls against a count for each key.
--
-- Each part has a module `Tests` with its theorems at concrete inputs. `Prelude` has what the
-- parts share: tests and conditionals, lists, words and bits.
--
-- Numbers: a byte or a word is a natural number, reduced by u8, u16, u32 or u64 wherever the Go
-- code's arithmetic can wrap round. Go's int is a natural number where it is never negative, an
-- integer of `ℤ` where it may be, and its 64-bit word in `Ines.Mapper2`. A panic is `none`, in
-- `Netplay` a constructor of `Outcome`. Each loop of the code runs over a list or counts down a
-- number of rounds known at its start, but for the one of WriteVarUint, which has ten rounds of
-- fuel: ten groups of seven bits hold 64 bits.
--
-- Not modelled: the picture unit but its address register, the bus, the messages and connections
-- of netplay, and the relay but its limit; the audio mixer and filters, which compute with
-- floating-point numbers; sound output, the debug writer and the checksum of a checkpoint; windows,
-- sockets, logs and the command line are input and output alone.
pub mod Prelude
pub mod Ringbuf
pub mod Binario
pub mod Input
pub mod Netplay
pub mod Cpu
pub mod Ines
pub mod Apu
pub mod Ppu
pub mod Relay
