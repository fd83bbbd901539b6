-- ===== src/Attest/Vcek/Resolve/Tests.antt =====
-- Runs of the resolution, and its theorem at a concrete input.
use secgit.Prelude.{◌≡◌, refl, String, none, [], ◌∷◌, Bytes}
use secgit.Prelude.Maps.{lookup}
use secgit.Attest.{io, Result, ok, err}
use secgit.Attest.Vcek.{milan, default_revocation}
use secgit.Attest.Vcek.Cache.{VcekCache, get}
use secgit.Attest.Vcek.Resolve.{resolve_vcek}
use secgit.Attest.Vcek.Fixtures.{toy_library}

-- The network gives everything.
abbrev fetch : String → Result Bytes
fetch url = ok (7 ∷ [])

abbrev empty : VcekCache
empty = record { files = []; now = 50; refused = λ file. none }

after_call : VcekCache
unfolding resolve_vcek
after_call = (resolve_vcek toy_library fetch milan (1 ∷ []) 7 default_revocation empty).1

-- Where the network is down and the cache empty, nothing is resolved.
refused :
    (resolve_vcek toy_library (λ url. err (io "down")) milan (1 ∷ []) 7 default_revocation empty).0
    ≡ err (io "down")
unfolding resolve_vcek get lookup
refused = refl
