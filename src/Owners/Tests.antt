-- ===== src/Owners/Tests.antt =====
-- The theorems about owners at concrete inputs: emails as they are, and a session name that keeps them.
use Prim.Native.String.{◌++◌ as cat}
use herdr_web_broker.Common.{
  ◌≡◌, ◌≢◌, refl, arith, eq_iff, true, false, some, ◌&&◌, str_eq, if◌then◌else◌, String, List, [],
  ◌∷◌,
}
use herdr_web_broker.Common.Dict.{lookup, insert}
use herdr_web_broker.Owners.{
  OwnerBinding, Owners, Call, binds, rebinds, err, email_taken, bind, step, run, by_email, rebind,
  unbind,
}
use herdr_web_broker.Owners.Provision.{provision, provisions, new_binding, by_email-provision}
use herdr_web_broker.Owners.Sticky.{bind_sticky}

abbrev canonical : String → String
canonical email = email

abbrev session_name_for : String → String
session_name_for email = cat "u-" email

abbrev anns : OwnerBinding
anns = record { email = "ann@x"; session = "u-ann@x"; token = "phone"; created_at = "t1" }

abbrev ann_bound : Owners
ann_bound = ("ann@x", anns) ∷ []

abbrev others : List Call
others = binds "bob@x" "desk" "t2" ∷ rebinds "bob@x" "pad" ∷ binds "ann@x" "desk" "t3" ∷ []

later_bind :
    bind canonical session_name_for "ann@x" "desk" "t4"
      (run canonical session_name_for ann_bound others)
    ≡ err (email_taken "ann@x")
unfolding bind run step rebind unbind lookup insert
later_bind = refl

bob_is_not_ann : ◌≢◌ {A = String} "bob@x" "ann@x"
bob_is_not_ann = ground (arith, eq_iff "bob@x" "ann@x")

bind_sticky_example :
    bind canonical session_name_for "ann@x" "desk" "t4"
      (run canonical session_name_for ann_bound others)
    ≡ err (email_taken "ann@x")
unfolding bind lookup insert
bind_sticky_example =
    bind_sticky canonical session_name_for "ann@x" "phone" "t1" [] ann_bound
      (record { binding = anns; created = true }) others "ann@x" "desk" "t4" refl
      (tt, (bob_is_not_ann, (tt, tt))) refl

-- Bob's herdr cannot be attached: his email is free again, and Ann's session is hers.
by_email-provision_example :
    by_email canonical session_name_for "bob@x"
      (provision canonical session_name_for false "bob@x" "desk" "t2" ann_bound).0
    ≡ (if provisions canonical session_name_for false "bob@x" ann_bound
          && str_eq (canonical "bob@x") (canonical "bob@x")
        then some (new_binding canonical session_name_for "bob@x" "desk" "t2")
        else by_email canonical session_name_for "bob@x" ann_bound)
by_email-provision_example =
    by_email-provision canonical session_name_for false "bob@x" "desk" "t2" "bob@x" ann_bound
