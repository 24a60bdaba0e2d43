-- ===== src/Api/Machines/Masked.antt =====
-- What an answer with a machine says of its credential.
use inference_lab.Prelude.{String, ◌≡◌, refl, false, Option, some, String-eq}
use inference_lab.Prelude.Text.{is_empty}
use inference_lab.Database.{Machine}
use inference_lab.Api.Machines.{machine_read}

-- The same machine with another stored credential.
abbrev pub with_credential : {F : Type 0} → Machine F → Option String → Machine F
with_credential m credential = record m { row = record m.row { encrypted_credential = credential } }

-- The answer with a machine does not depend on its stored credential, but for whether one is
-- stored: two machines that differ only in texts that are stored for it, none of them empty, have
-- the same answer.
pub machine_read_masked :
    {F : Type 0} (m : Machine F) (a b : String)
    → is_empty a ≡ false
    → is_empty b ≡ false
    → machine_read (with_credential m (some a)) ≡ machine_read (with_credential m (some b))
unfolding machine_read
machine_read_masked m a b full full' = rw (full, full') refl
