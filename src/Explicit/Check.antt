-- ===== src/Explicit/Check.antt =====
-- printblock, checkblock and mm_checkheap of mm-explicit list(82:100)/mm.c. Their text and the macros in it are those
-- of the other mm.c, so that these are its definitions.
use mar_2015_dynamic_storage.Base.{ℕ, List, Option}
use mar_2015_dynamic_storage.Machine.Memory.{Mem}
use mar_2015_dynamic_storage.Seg.Check
use mar_2015_dynamic_storage.Seg.Check.{Message}
use mar_2015_dynamic_storage.Seg.Check.Verbose
use mar_2015_dynamic_storage.Seg.Check.Verbose.{Line}

unfoldable pub checkblock : Mem → ℕ → List Message
checkblock m bp = Check.checkblock m bp

unfoldable pub printblock : Mem → (fuel heap_listp bp : ℕ) → Option (List Line)
printblock m fuel heap_listp bp = Verbose.printblock m fuel heap_listp bp

unfoldable pub check_epilogue : Mem → ℕ → List Message
check_epilogue m bp = Check.check_epilogue m bp

unfoldable pub mm_checkheap : Mem → (fuel heap_listp : ℕ) → Option (List Message)
mm_checkheap m fuel heap_listp = Check.mm_checkheap m fuel heap_listp

unfoldable pub checkheap_verbose : Mem → (fuel heap_listp : ℕ) → Option (List Line)
checkheap_verbose m fuel heap_listp = Verbose.checkheap_verbose m fuel heap_listp
