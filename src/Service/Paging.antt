-- ===== src/Service/Paging.antt =====
-- backend/internal/service/conversation_service.go: `normalizeOffset` and `normalizeLimit`.
use sociomile.Prelude.{
  ℕ, zero, suc, ℤ, pos, negsuc, ◌≡◌, ◌≤◌, refl, is_negative, not_positive, exceeds, ltb,
  if◌then◌else◌, Bool-cases, inl, inr, arith,
}

unfoldable pub normalize_offset : ℤ → ℤ
normalize_offset offset = if is_negative offset then pos 0 else offset

unfoldable pub normalize_limit : ℤ → ℤ
normalize_limit limit =
    if not_positive limit then pos 20 else if exceeds limit 100 then pos 100 else limit

pub normalize_offset_lem : (offset : ℤ) → (n : ℕ) × (normalize_offset offset ≡ pos n)
unfolding normalize_offset
normalize_offset_lem (pos n) = (n, refl)
normalize_offset_lem (negsuc n) = (0, refl)

pub normalize_limit_lem :
    (limit : ℤ) → (n : ℕ) × (normalize_limit limit ≡ pos (suc n)) × (suc n ≤ 100)
unfolding normalize_limit
normalize_limit_lem (pos zero) = (19, refl, omega arith)
normalize_limit_lem (pos (suc n)) = elim (Bool-cases (ltb 100 (suc n))) [
  | inl over ↦ (99, rw over refl, omega arith)
  | inr under ↦ (n, rw under refl, ground arith)
]
normalize_limit_lem (negsuc n) = (19, refl, omega arith)
