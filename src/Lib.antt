-- ===== src/Lib.antt =====
-- The Feral kernel: a model of its boot loader and start-up, its memory management, its text
-- and number routines, its formatted printing, its screen, its interrupt table, its keyboard
-- and its serial line.
--
-- How the program's parts fit together: the boot loader puts the kernel's file into memory and
-- hands it a memory map, from which the kernel starts the physical frame bitmap and its heap.
-- It maps pages over it with tables that the kernel heap gives room for, sets up the interrupt
-- table, and prints on a text screen that is memory and a few ports. The memory routines below
-- all of these copy, fill and compare bytes; the number routines make the text that is
-- printed. The serial line has a shell.
--
-- Base: shared names, Boolean tests, lists with an index, machine words with their wrap-around
--   written out, bits and bytes, and `Option` as a computation that can stop.
-- Status: `FERALSTATUS` of inc/feral/feralstatus.h and `KiGetErrorType` of sec/sec.c.
-- Ports: `x86outb` and `x86inb` of kern/arch/x86_64/asm_helpers.c, as a trace of writes and a
--   function for what a port reads as.
-- Pmm: kern/mm/mmsetup.c. `MmState` is a record with the bytes of the bitmap; an access
--   outside of them is `none`. The abstract view is the set of used frames.
-- Memory: kern/lib/kernel_memfuncs.c on a memory that is a function from addresses to bytes.
-- Strings: kern/lib/kernel_stringfuncs.c on that memory.
-- Numbers: kern/lib/kernel_binfuncs.c; `Result` and `buf` are that memory, by offset.
-- Paging: kern/arch/x86_64/mm/paging.c and kern/inc/arch/x86_64/mm/pageflags.h. An entry is
--   the 64-bit word at its physical address; `Mmu.translate` is the walk of the processor, by
--   its manual and not by the code. The kernel heap is a parameter, the record `Allocator`, of
--   which no law is asked; Heap.Tables fills it with the heap.
-- Heap: kern/mm/heap.c and the structures of kern/inc/mm/heap.h, by the words at their fields.
-- Startup: how the memory map of the boot loader becomes the state of the bitmap:
--   `HandleMemory` of kern/entry/mb2entry.c, the memory branch of `KiStartupSystem` of
--   kern/kernel_main.c and `KiInitializeMemMgr` of kern/mm/mmsetup.c, which starts the heap as
--   well.
-- Multiboot: the loop over the boot loader's tags, which `Tags` describes by their
--   specification, in kern/entry/mb2entry.c, with the structures of
--   kern/inc/multiboot/multiboot2.h, its functions that print, which `Row` gives to `KiPrint`,
--   and in `Entry` the whole of its `kern_init`. The memory map is written behind the kernel,
--   where no tag lies.
-- Vga: kern/arch/x86_64/vga/vga_driver.c. `Screen` holds the context, the memory and the
--   ports.
-- Interrupts: the table of kern/arch/x86_64/archstart.c and kern/arch/x86_64/interrupts.c.
-- Processor: the segment descriptors and the start of a processor in
--   kern/arch/x86_64/archstart.c, over the page tables and the interrupt table.
-- Keyboard: the PS/2 keyboard of kern/arch/x86_64/interrupts.c. The names of the keys lie in
--   memory, since the comparison reads behind them.
-- Print: kern/lib/kernel_printfuncs.c, over a record of the functions that print; `Pieces`
--   describes format strings and what they show. The arguments are a list.
-- Stop: `KiStopError` of sec/sec.c, over the same record, and the interrupt handlers that
--   print a message or call it; `Screen` fills in the text screen.
-- Boot: bootloader/boot.c with the structures of drivers/proc/elf/elf.h, over records of the
--   firmware's services, `Services` for the loader and `Firmware` for the rest, of which no
--   law is asked but where a theorem names it. `Main` is `uefi_main`, which ends with a
--   status, in `ResetSystem` or in the kernel; `Displays` and `Ranges` are the loops over the
--   displays and the memory map.
-- EfiEntry: the entry from UEFI in kern/entry/efientry.c, and what it hands to the kernel; the
--   glyphs of Charmap are kern/entry/charmap_default.inl, which `Glyphs` reads as the pointers
--   that the map's type makes of them.
-- Serial: drivers/serial/serial.c and drivers/serial/kshell/kshell.c.
--
-- Bounds and fuel: numbers are natural numbers, and every cast and every operation that can
-- wrap takes the remainder that the C type takes. A loop that may not end takes fuel and is
-- `none` when that runs out; the theorems about such loops say how much is enough: a quarter
-- of the bytes and two rounds for the memory routines, the length and one for strings, 64 for
-- a logarithm, the digits and one for a number, the frames of the kernel or of the heap and
-- one for the start of the memory manager, the characters of a format string and its end, and
-- the file offset of the program headers and one for the boot loader. `internalVgaPushUp`,
-- `VgaMoveCursor` and `VgaEntry` call each other; the fuel that bounds the loops bounds these
-- calls as well.
--
-- Not modelled: the entry points but for their input and what they hand over, the older copy
-- of `KiStartupSystem` in kern/entry/efientry.c, which does not fit the structures of mm.h any
-- more, `FlushTLB` and the TLB, and what is assembly. The walk of the processor leaves out
-- rights. The last loop of `uefi_main`, whose body is empty, is left out. A byte that
-- `x86_io_stall` writes to port 0x80 is not in a trace, since it is whatever a register holds.
mod Base
pub mod Status
pub mod Ports
pub mod Pmm
pub mod Memory
pub mod Strings
pub mod Numbers
pub mod Paging
pub mod Vga
pub mod Interrupts
pub mod Serial
pub mod Keyboard
pub mod Heap
pub mod Startup
pub mod Print
pub mod Boot
pub mod Processor
pub mod Multiboot
pub mod Charmap
pub mod EfiEntry
pub mod Stop
