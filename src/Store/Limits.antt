-- ===== src/Store/Limits.antt =====
-- internal/store/store.go: normalizeSearchLimits.
use dong_rag.Base.{◌≡◌, arith, if◌then◌else◌, ℤ, pos, ltb_ℤ, ◌≤ℤ◌}

abbrev five_if_none : ℤ → ℤ
five_if_none top_k = if ltb_ℤ top_k (pos 1) then pos 5 else top_k

abbrev at_least : ℤ → ℤ → ℤ
at_least top_k candidate_k = if ltb_ℤ candidate_k top_k then top_k else candidate_k

unfoldable pub normalize_search_limits : ℤ → ℤ → ℤ × ℤ
normalize_search_limits top_k candidate_k =
    (five_if_none top_k, at_least (five_if_none top_k) candidate_k)

-- The limits of a search are positive, with at least as many candidates as hits, and limits that
-- are so already stay as they are.
pub normalize_search_limits_lem :
    (k c : ℤ)
    → (pos 1 ≤ℤ (normalize_search_limits k c).0)
      × ((normalize_search_limits k c).0 ≤ℤ (normalize_search_limits k c).1)
      × (pos 1 ≤ℤ k → k ≤ℤ c → normalize_search_limits k c ≡ (k, c))
unfolding normalize_search_limits
normalize_search_limits_lem k c = (ground arith, ground arith, λ h l. ground (arith, h, l))
