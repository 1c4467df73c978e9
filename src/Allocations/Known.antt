-- ===== src/Allocations/Known.antt =====
-- The life of an allocation: what any calls on it leave behind.
