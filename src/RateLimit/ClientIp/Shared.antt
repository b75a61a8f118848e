-- ===== src/RateLimit/ClientIp/Shared.antt =====
-- The key under which internal/api/middleware/ip_rate_limit.go counts a client behind a proxy.
use Prim.Native.Char.{code}
use apime.Common.{ℕ, String, ◌≡◌, Bool, true, false, ◌||◌, List, [], ◌∷◌, eqb, map, All}
use apime.Common.Text.{trim_space, contains}
use apime.RateLimit.ClientIp.{Request, split}

-- Whether a text has the character with this code.
unfoldable pub has_code : ℕ → String → Bool
has_code n String.[] = false
has_code n (String.◌∷◌ c s) = let rest = has_code n s in eqb (code c) n || rest

-- A text with a colon and no dot before the first, as an IPv6 address is written.
pub record IsColonned (text : String) : Type 0 where
  pub colon : contains (trim_space text) ":" ≡ true
  pub no_dot : has_code 46 (split 58 (trim_space text)).0 ≡ false

-- A header that names no address, or only such texts.
pub data IsUnread (header : String) (parts : List String) : Type 0 where
  absent : header ≡ "" → IsUnread header parts
  colonned : All IsColonned parts → IsUnread header parts

-- Each of the four headers is absent or names only IPv6 addresses.
pub record NamesColonned (r : Request) : Type 0 where
  pub cf : IsUnread r.cf_connecting_ip (r.cf_connecting_ip ∷ [])
  pub forwarded :
      IsUnread r.x_forwarded_for
        (map trim_space ((split 44 r.x_forwarded_for).0 ∷ (split 44 r.x_forwarded_for).1))
  pub real : IsUnread r.x_real_ip (r.x_real_ip ∷ [])
  pub client : IsUnread r.x_client_ip (r.x_client_ip ∷ [])
