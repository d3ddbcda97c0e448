-- ===== src/Submission/Fence.antt =====
-- clob/submission.rs: the fence between the lease and the attempts.
use rspm.Common.{false, ◌≡◌, ◌⊎◌}
use rspm.Submission.{Controller}

-- While a lease is held no attempt is live.
abbrev pub IsFenced : Controller → Type 0
IsFenced c = (c.writer ≡ false) ⊎ (c.readers ≡ 0)

-- The fields of the fence are the same.
abbrev SameFence : Controller → Controller → Type 0
SameFence c d = (d.writer ≡ c.writer) × (d.readers ≡ c.readers)
