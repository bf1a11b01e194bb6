-- ===== src/Session/Options/Examples.antt =====
-- Calls of the setters on the session of the samples.
use winafi.Prelude.{◌≡◌, refl, some, arith}
use winafi.Session.State.{Session}
use winafi.Session.Options.{cluster_size, set_option, set_cluster_size}
use winafi.Session.Options.Domain.{InDomain, set_option-InDomain}
use winafi.Samples.{ready}

abbrev resized : Session
resized = record ready { options = record (ready.options) { cluster_size = 4096 } }

resized_lem : set_option (cluster_size 4096) ready ≡ some resized
unfolding set_option set_cluster_size
resized_lem = refl

ready-InDomain : InDomain ready.options
ready-InDomain = ground arith

set_option-InDomain_example : InDomain resized.options
set_option-InDomain_example =
    set_option-InDomain (cluster_size 4096) ready resized resized_lem ready-InDomain
