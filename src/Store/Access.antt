-- ===== src/Store/Access.antt =====
-- `betaAllowlistRequired` and `hasActivePaymentAccess` of allowlist/allowlistEntry.ts. The variable
-- of the environment is an argument.
use zephipay_backend.Common.{
  Bool, Option, String, eqb, false, if◌then◌else◌, leb, none, not, some, trim, true, truthy, ℕ, ℤ,
  ◌&&◌, ◌+◌, ◌==◌,
}
use zephipay_backend.Store.Claims.{DateParser, lt_ℤ}
use zephipay_backend.Store.State.{AllowlistEntry}
use Prim.Native.Char.{code}
use Prim.Native.String.{[], ◌∷◌}

-- The code point in lower case; on what is compared with "true" and "false" only ASCII letters count.
abbrev lower : ℕ → ℕ
lower c = if leb 65 c && leb c 90 then c + 32 else c

-- `text.toLowerCase() === word`, for a word of lower-case ASCII letters.
unfoldable pub lowers_to : String → String → Bool
lowers_to [] [] = true
lowers_to (c ∷ s) (d ∷ t) = eqb (lower (code c)) (code d) && lowers_to s t
lowers_to _ _ = false

unfoldable pub beta_allowlist_required : Option String → Bool
unfolding lowers_to
beta_allowlist_required none = true
beta_allowlist_required (some raw) =
    if trim raw == "" then true else if lowers_to (trim raw) "false" then false else true

-- `Date.parse(a) > Date.parse(b)`: false where either is NaN.
abbrev pub date_after : Option ℤ → Option ℤ → Bool
date_after (some a) (some b) = lt_ℤ b a
date_after _ _ = false

-- `entry.expiresAt === undefined || Date.parse(entry.expiresAt) > Date.parse(now)`
abbrev pub not_expired : DateParser → Option String → String → Bool
not_expired parse none now = true
not_expired parse (some expires) now = date_after (parse expires) (parse now)

unfoldable pub has_active_payment_access :
    DateParser → Option String → Option AllowlistEntry → String → Bool
has_active_payment_access parse setting entry now =
    if not (beta_allowlist_required setting) then true else elim entry [
      | none ↦ false
      | some e ↦ e.enabled && not (truthy e.revoked_at) && not_expired parse e.expires_at now
    ]
