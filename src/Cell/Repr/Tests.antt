-- ===== src/Cell/Repr/Tests.antt =====
-- The smallest signed byte, through a cell.
