-- ===== src/Lib.antt =====
-- The kernel NTX, a small x86-64 kernel in C: a model of its components, and what is proved of them.
--
-- Parts. `Nk` (kernel/nk/core.c) is the nucleus: message ports and service endpoints. `Ob`
-- (kernel/ob/init.c) is the object manager: types, objects and handles. `Ps` (kernel/ps/init.c) are
-- processes, threads and the scheduler; its threads and processes are objects of `Ob`. `Mm`
-- (kernel/mm/init.c) hands out physical pages, keeps page tables and the regions of address spaces,
-- and handles page faults. `Io` (kernel/io/init.c) keeps boot files and gives out file
-- handles, through `Ob`. `Lpc` (kernel/lpc/init.c) puts message ports behind handles; threads
-- of `Ps` wait at them. `Ke` (kernel/ke/syscall.c and kernel/ke/init.c) takes the system calls of
-- user code and passes them on to the other parts. `Rtl` (kernel/rtl/memory.c) moves memory. `Se`
-- (kernel/se/init.c) checks access tokens, `Cc` (kernel/cc/init.c) sets the policy of the cache.
-- `Boot` (boot/uefi/bootx64.c) loads the kernel and hands over the memory map; `Kpe`
-- (include/kpeformat.h) is the format of its file and of user images. `Hal` (hal/aur64/hal_aur64.c)
-- is the console: the serial line, the keyboard and the screen.
--
-- Base.antt: the tests, fixed arrays, pool searches, texts, linked queues and bit operations that the
--   parts share, and the status codes of kernel/include/kstatus.h.
-- BootProto.antt: boot/include/bootproto.h.
-- Nk.antt: the state is a `Port` or the `Core` counters; `send` and `receive` are NkPortSend and
--   NkPortReceive behind their NULL tests, `port_send` and `port_receive` the whole functions.
-- Ob.antt: the globals of the file are the record `Ob`. `create_object` is ObCreateObject,
--   `insert_handle` is ObInsertHandle, and so on. The delete routines of types are a parameter.
--   Ob/System.antt is the step relation of all calls.
-- Ps.antt: the scheduler: `dispatch` is PsDispatch, `leave` is PsExitCurrentThread and
--   PsBlockCurrentThread. An NK_ASSERT that fails is `none`. Ps/Create.antt: PsCreateProcess,
--   PsCreateKernelThread and PsCreateUserThread. Ps/Image.antt: `apply_relocations` is
--   PspApplyUserKpeRelocations, on the bytes of the loaded image. Ps/Headers.antt, Ps/Load.antt and
--   Ps/Spawn.antt: PsSpawnUserKpeFromBuffer, its tests of the file, the copy and the whole.
--   Ps/Start.antt: `initialize_ps` is PsInitialize.
-- Mm.antt: the record `Pages` is the bitmap, the reference counts and the scan of the pages;
--   `alloc_page` is MmAllocPage, `mark_range` is MmpMarkRange. Mm/Walk.antt: `walk_to_pte` is
--   MmpWalkToPte; physical memory is a function from a frame and an index to a word of 64 bits.
--   Mm/Pte.antt: MmAsMapPage, MmAsUnmapPage, MmAsProtectPage and MmAsQueryPte. Mm/Space.antt: the
--   pool of address spaces, MmMapAnonymous and MmpFindRegion. Mm/Fault.antt: `handle_page_fault` is
--   MmHandlePageFault. Mm/SectionHandles.antt: MmCreateSectionHandle and MmMapSectionHandle.
-- Io.antt: the record `Io` is the file's globals; `open_path` is IoOpenPath. An operation takes the
--   states of `Io` and of `Ob`.
-- Lpc.antt: a `PortObject` is a port of `Nk`, an object of `Ob` and a queue of threads of `Ps`;
--   `send_by_handle` is LpcSendByHandle. Lpc/Receive.antt: `receive_by_handle` is
--   LpcReceiveByHandle, in rounds, with what the other threads do in between as a parameter.
-- Ke.antt: hexadecimal text, the status line and the tests of user ranges. Ke/Calls.antt:
--   `dispatch_system_call` is KiDispatchSystemCall with every handler, over the record `Services` of
--   what the handlers call. Ke/Kernel.antt fills it with the operations of the parts above; the
--   services that it does not fill are its argument `Others`.
-- Kpe.antt: a file is a function of the offset; the headers are read at their offsets.
-- Boot.antt: Boot/Image.antt validates and relocates the kernel's image, Boot/Load.antt is LoadKpeImage,
--   Boot/MemoryMap.antt is the memory map and ExitBootServicesRobust over a record of the firmware's
--   calls, Boot/Handoff.antt is PopulateBootInfo.
-- Hal.antt: Hal/Ports.antt is the serial line over a record of the port instructions,
--   Hal/Keyboard.antt the keyboard, Hal/Font.antt the font, Hal/Console.antt the text on the
--   framebuffer, which is a function of the pixel's index, and Hal/Calls.antt the calls of these.
-- Rtl.antt: a memory is a function of the address.
-- Se.antt, Cc.antt: `access_check` is SeAccessCheck, `policy_for` is what CcInitialize sets.
--
-- Conventions. A C integer of w bits is a ℕ with `% 2 ^ w` where the source can wrap. A fixed array
-- is a function of the index, and a pointer into a pool the index. An operation returns its status,
-- the value for its out-pointer, and the new state. Loops are structural: over the rounds that are
-- left, which the code's own bound gives, except for two. The blocks of relocations, of the kernel
-- and of the boot loader, are read in as many rounds as the directory has bytes, and two more: a
-- block has eight bytes or more. The loop of LpcReceiveByHandle has no bound in the code; its rounds
-- are a parameter.
--
-- Not modelled: the interrupts, descriptor tables and timer of the hardware layer, the assembly of
-- the context switch and the flush of translations, which have no state that the theorems speak of;
-- the boot loader's files, splash screen and jump, which are calls of the firmware; the kernel's own
-- root table and the map of physical memory at start; IoSpawnProcessFromFileHandle; the initialisers
-- that only register types; and the validation suite of Ke, which runs tests at boot.
pub mod Base
pub mod Boot
pub mod BootProto
pub mod Cc
pub mod Hal
pub mod Io
pub mod Ke
pub mod Kpe
pub mod Lpc
pub mod Mm
pub mod Nk
pub mod Ob
pub mod Ps
pub mod Rtl
pub mod Se
