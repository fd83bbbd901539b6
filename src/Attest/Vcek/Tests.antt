-- ===== src/Attest/Vcek/Tests.antt =====
-- Runs of the model of vcek.rs, and its theorems at concrete inputs.
use secgit.Prelude.{◌≡◌, refl}
use secgit.Prelude.Words.{le_bytes}
use secgit.Attest.{ok}
use secgit.Attest.Vcek.{milan, verify_vcek, from_reported}
use secgit.Attest.Vcek.Chain.{IsChain, verify_vcek-IsChain}
use secgit.Attest.Vcek.Fixtures.{point, cert, toy_library}

-- The Tcb of the source's own test.
from_reported-sample :
    from_reported 15209781841537007619
    ≡ record { bootloader = 3; tee = 0; snp = 20; microcode = 211 }
unfolding from_reported le_bytes
from_reported-sample = refl

chained : verify_vcek toy_library milan cert cert ≡ ok (record { sec1_uncompressed = point })
unfolding verify_vcek
chained = refl

verify_vcek-IsChain_example :
    IsChain toy_library milan cert cert (record { sec1_uncompressed = point })
verify_vcek-IsChain_example =
    verify_vcek-IsChain toy_library milan cert cert (record { sec1_uncompressed = point }) chained
