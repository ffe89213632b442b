-- ===== src/Identity/Tests.antt =====
-- The theorem on user ids at a name with a separator in it.
use convergence_client_javas.Base.{◌≡◌, ◌↔◌, [], ◌∷◌, ok}
use convergence_client_javas.Identity.{DomainUserId, anonymous, to_guid, from_guid}
use convergence_client_javas.Identity.Guid.{from_guid-to_guid_iff}

abbrev someone : DomainUserId
someone = record { user_type = anonymous; username = b'x' ∷ b':' ∷ b'y' ∷ [] }

from_guid-to_guid_iff_example :
    (from_guid (to_guid someone) ≡ ok someone) ↔ (to_guid someone ≡ to_guid someone)
from_guid-to_guid_iff_example = from_guid-to_guid_iff (to_guid someone) someone
