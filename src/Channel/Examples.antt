-- ===== src/Channel/Examples.antt =====
-- Tests of the channels, and the theorems at concrete inputs.
use snservices.Base.{◌≡◌, refl, true, false, none, some, [], ◌∷◌, arith}
use snservices.Channel.{
  Channel, World, self, is_linked, add_user_to_channel, del_invite, remove_user_from_channel,
  add_invite,
}
use snservices.Channel.Links.{occurs}
use snservices.Channel.Linked.{Linked, add_user_to_channel-Linked}
use snservices.Channel.Invite.{del_invite-Linked}
use snservices.Channel.Remove.{remove_user_from_channel-Linked, Linked-no_dangling}
use snservices.Channel.Ops.{
  is_chan_op, has_voice, have_ops, outsider-no_rights, have_ops-is_chan_op,
}
use snservices.Channel.AddInvite.{Bounded, add_invite-Linked}

-- Channels that were just made, and clients that are on none.
abbrev blank : World
blank = record {
  channels = λ k. record { live = true; users = 0; members = []; invites = []; banlist = [] };
  users = λ c. record { channel = []; joined = 0; invited = []; maxchannels = 1 };
  has_user = λ c. true;
}

blank-Linked : Linked blank
blank-Linked = record {
  members_eq = λ ch c. refl;
  invites_eq = λ ch c. refl;
  users_eq = λ ch. refl;
  joined_eq = λ c. refl;
  dead = λ ch d. absurd cc;
}

-- Client 1 is on channel 7.
abbrev one_on : World
one_on = add_user_to_channel 7 1 1 blank

one_on-Linked : Linked one_on
one_on-Linked = add_user_to_channel-Linked 7 1 1 blank refl blank-Linked

gone : ((remove_user_from_channel 1 7 one_on).channels 7).live ≡ false
unfolding remove_user_from_channel add_user_to_channel
gone = refl

joined_test : (one_on.users 1).joined ≡ 1
unfolding add_user_to_channel
joined_test = refl

-- With no room at all the oldest invitation is looked for in an empty list.
no_room :
    add_invite 2 7 (record blank { users = λ c. record (blank.users c) { maxchannels = 0 } }) ≡ none
unfolding add_invite
no_room = refl

add_user_to_channel-Linked_test : Linked (add_user_to_channel 7 2 0 one_on)
unfolding add_user_to_channel
add_user_to_channel-Linked_test = add_user_to_channel-Linked 7 2 0 one_on refl one_on-Linked

del_invite-Linked_test : Linked (del_invite 3 7 one_on)
del_invite-Linked_test = del_invite-Linked 3 7 one_on one_on-Linked

remove_user_from_channel-Linked_example : Linked (remove_user_from_channel 1 7 one_on)
remove_user_from_channel-Linked_example = remove_user_from_channel-Linked 1 7 one_on one_on-Linked

Linked-no_dangling_test :
    (occurs self 7 ((remove_user_from_channel 1 7 one_on).users 1).channel ≡ 0)
    × (occurs self 7 ((remove_user_from_channel 1 7 one_on).users 1).invited ≡ 0)
Linked-no_dangling_test =
    Linked-no_dangling (remove_user_from_channel 1 7 one_on) 7
      (remove_user_from_channel-Linked 1 7 one_on one_on-Linked) gone 1

add_invite-Linked_example :
    (w' : World) × (add_invite 2 7 blank ≡ some w') × Linked w' × Bounded 2 w'
add_invite-Linked_example =
    add_invite-Linked 2 7 blank refl (omega arith) blank-Linked (omega arith)

abbrev watched : Channel
watched = record {
  live = true;
  users = 2;
  members = record { cptr = 4; flags = 2 } ∷ record { cptr = 5; flags = 1 } ∷ [];
  invites = [];
  banlist = [];
}

voice_test : has_voice 4 watched ≡ 2
unfolding has_voice
voice_test = refl

outsider_test : (is_chan_op 6 watched ≡ 0) × (has_voice 6 watched ≡ 0)
unfolding is_linked
outsider_test = outsider-no_rights 6 watched refl

have_ops_test : have_ops watched ≡ 1
unfolding is_chan_op
have_ops_test = have_ops-is_chan_op 5 watched (omega arith)
