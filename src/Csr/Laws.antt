-- ===== src/Csr/Laws.antt =====
-- csr.h, `CSRFile::read` and `CSRFile::write`: what a read after a write gives.
use mocker.Prelude.{ℕ, ◌==◌, ◌≡◌, true, if◌then◌else◌, some, arith}
use mocker.Csr.{CsrFile, read, write}

-- A write that is accepted is read back at its address, and a read at any other address gives what it
-- gave before.
pub read-write :
    (c : CsrFile) (addr other val : ℕ)
    → (write c addr val).1 ≡ true
    → read (write c addr val).0 other ≡ (if other == addr then some val else read c other)
unfolding read write
read-write c addr other val h = ground arith
