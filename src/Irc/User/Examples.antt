-- ===== src/Irc/User/Examples.antt =====
-- irc_user.c: root alone, and then a second user, who is renamed and freed.
use bitl_steam.Common.{
  ◌≡◌, ◌↔◌, ◌∙◌, sym, refl, ℕ, false≢true, true, false, none, some, Bytes, List, [], ◌∷◌, ◌++◌,
  codes, arith, if◌then◌else◌, ◌||◌, ◌==◌, strcmp_eq, All,
}
use bitl_steam.Common.Outcome.{done}
use bitl_steam.Glib.Assoc.{assoc}
use bitl_steam.Glib.Sorted.{slist}
use bitl_steam.Glib.Members.{mem}
use bitl_steam.Nick.{nick_lc, lower}
use bitl_steam.Irc.Channel.{Channel, has_user}
use bitl_steam.Irc.Channel.View.{View, IsChannel, Knows}
use bitl_steam.Irc.User.{
  quit, Irc, IrcUser, the_nick, own, write, place, insert, irc_user_new, irc_user_by_name,
  irc_user_set_nick, irc_user_free, irc_user_quit, is_other,
}
use bitl_steam.Irc.User.Index.{member}
use bitl_steam.Irc.User.Users.{IsConsistent, insert-IsConsistent}
use bitl_steam.Irc.User.Rename.{irc_user_set_nick_lem}
use bitl_steam.Irc.User.Free.{irc_user_free_lem}
use mathlib.Core.Path.{subst}
use bitl_steam.Irc.User.Calls.{
  Call, create, rename, perform, perform_all, AreLegal, Has, without_users, perform_all-Has,
}
use bitl_steam.Irc.User.Quit.{observe_sent, is_seen_by_client, irc_user_quit_lem}

abbrev Table : Type 0
Table = List (Bytes × ℕ)

abbrev root_user : IrcUser
root_user = record {
  nick = codes "root";
  user = the_nick;
  host = own (codes "localhost");
  fullname = own (codes "root");
  key = codes "root";
  bu = none;
}

-- Root is at 1, the client will be at 2. Root is in the control channel, which the client has joined.
abbrev empty : Irc Table
empty = record {
  store = λ p. none;
  users = [];
  nick_user_hash = [];
  user = 2;
  root = 1;
  channels = [];
  ops = codes "both";
  shutdown = false;
  simulate_netsplit = true;
  root_host = codes "localhost";
  last_ic = none;
  msg = [];
  sent = [];
}

empty-IsConsistent : IsConsistent assoc slist slist empty
unfolding mem assoc
empty-IsConsistent = record {
  index = record {
    once = tt;
    stored = λ p e. absurd (false≢true e);
    found = λ k p. (λ e. cc, λ e. cc);
  };
  sorted = tt;
  keyed = λ p e. tt;
}

root-lowered : nick_lc (codes "root") ≡ done (true, codes "root")
unfolding nick_lc lower
root-lowered = refl

upper-lowered : nick_lc (codes "ROOT") ≡ done (true, codes "root")
unfolding nick_lc lower
upper-lowered = refl

new-lowered : nick_lc (codes "Bee") ≡ done (true, codes "bee")
unfolding nick_lc lower
new-lowered = refl

-- Root is there.
abbrev one : Irc Table
one = insert assoc slist slist 1 root_user empty

one-IsConsistent : IsConsistent assoc slist slist one
one-IsConsistent =
    insert-IsConsistent assoc slist slist 1 root_user empty empty-IsConsistent (unfold mem in refl)
      (unfold assoc in refl) root-lowered

root-member : member one.users 1 ≡ true
unfolding insert mem slist
root-member = refl

root-stored : one.store 1 ≡ some root_user
unfolding insert write
root-stored = refl

nobody : irc_user_by_name assoc slist slist one (codes "Bee") ≡ done none
unfolding irc_user_by_name insert assoc
nobody = rw new-lowered refl

irc_user_set_nick_lem_example :
    (is_other assoc slist slist 1 none ≡ true
      → irc_user_set_nick assoc slist slist 1 (codes "Bee") one ≡ done (false, one))
    × (is_other assoc slist slist 1 none ≡ false
        → (after : Irc Table) × (irc_user_set_nick assoc slist slist 1 (codes "Bee") one
            ≡ done (true, after))
          × IsConsistent assoc slist slist after
          × ((other k : Bytes)
              → nick_lc other ≡ done (true, k)
              → irc_user_by_name assoc slist slist after other ≡ (
                  if strcmp_eq (codes "bee") k
                  then done (some 1)
                  else if strcmp_eq (codes "root") k
                  then done none
                  else irc_user_by_name assoc slist slist one other)))
irc_user_set_nick_lem_example =
    irc_user_set_nick_lem assoc slist slist one 1 root_user (codes "Bee") (codes "bee") none
      one-IsConsistent root-member root-stored new-lowered nobody

irc_user_free_lem_example :
    (irc_user_free assoc slist slist none one ≡ done (false, one))
    × ((after : Irc Table) × (irc_user_free assoc slist slist (some 1) one ≡ done (true, after))
        × IsConsistent assoc slist slist after
        × (member after.users 1 ≡ false)
        × (after.store 1 ≡ none)
        × ((other k : Bytes)
            → nick_lc other ≡ done (true, k)
            → irc_user_by_name assoc slist slist after other ≡ (
                if strcmp_eq (codes "root") k
                then done none
                else irc_user_by_name assoc slist slist one other)))
irc_user_free_lem_example =
    irc_user_free_lem assoc slist slist one 1 root_user one-IsConsistent root-member root-stored

-- The client is at 2, and 3 is a buddy that quits.
abbrev channel : Channel
channel = record {
  self = 7;
  name = codes "&bitlbee";
  joined = true;
  temp = false;
  topic = none;
  users = record { iu = 3; flags = 0 } ∷ record { iu = 2; flags = 1 } ∷ [];
}

abbrev chat : Irc Table
chat = record empty { channels = channel ∷ [] }

abbrev view : View
view c u = u == 2 || u == 3

channel-IsChannel : IsChannel (place assoc slist slist chat) channel
unfolding place has_user mem
channel-IsChannel = record { distinct = (refl, (refl, tt)); joined_iff = refl }

channel-Knows : Knows (observe_sent [] view) channel
unfolding observe_sent has_user mem
channel-Knows = record { members = λ e u. ground arith }

irc_user_quit_lem_example :
    let after = irc_user_quit assoc slist slist 3 (codes "bye") chat in
    All (λ ic. has_user ic.users 3 ≡ false) after.channels
    × ((3 == chat.user) ≡ false
        → after.sent
          ≡ chat.sent
            ++ (if is_seen_by_client assoc slist slist 3 chat.channels
                then quit 3 (codes "bye") ∷ []
                else []))
    × All (IsChannel (place assoc slist slist after)) after.channels
    × All (Knows (observe_sent after.sent view)) after.channels
irc_user_quit_lem_example =
    irc_user_quit_lem assoc slist slist chat view 3 (codes "bye") (omega arith)
      (channel-IsChannel, tt) (channel-Knows, tt)

-- Root is made, and then renamed.
abbrev calls : List Call
calls = create 1 (codes "root") ∷ rename 1 (codes "Bee") ∷ []

abbrev made_root : IrcUser
made_root = record {
  nick = codes "root";
  user = the_nick;
  host = the_nick;
  fullname = the_nick;
  key = codes "root";
  bu = none;
}

abbrev made_one : Irc Table
made_one = insert assoc slist slist 1 made_root (without_users assoc slist slist [] empty)

made-member : member made_one.users 1 ≡ true
unfolding insert mem slist
made-member = refl

made-stored : made_one.store 1 ≡ some made_root
unfolding insert write
made-stored = refl

made :
    perform assoc slist slist (create 1 (codes "root")) (without_users assoc slist slist [] empty)
    ≡ done made_one
unfolding perform irc_user_new
made = rw root-lowered refl

root_free :
    irc_user_by_name assoc slist slist (without_users assoc slist slist [] empty) (codes "root")
    ≡ done none
unfolding irc_user_by_name assoc
root_free = rw root-lowered refl

calls-AreLegal : AreLegal assoc slist slist calls (without_users assoc slist slist [] empty)
calls-AreLegal = (
  (codes "root", root-lowered, refl, root_free),
  λ after e.
      subst (λ irc. AreLegal assoc slist slist (rename 1 (codes "Bee") ∷ []) irc)
        (done_eq (sym made ∙ e))
        ((codes "bee", made_root, new-lowered, made-member, made-stored), λ last run. tt),
)
  where
    done_eq : {x y : Irc Table} → done x ≡ done y → x ≡ y
    done_eq q = cc

no_keys : (k : Bytes) → (assoc {V = ℕ}).lookup [] k ≡ none
unfolding assoc
no_keys k = refl

perform_all-Has_example :
    (after : Irc Table) × (perform_all assoc slist slist calls
        (without_users assoc slist slist [] empty)
      ≡ done after)
    × ((nick key : Bytes) (p : ℕ)
        → nick_lc nick ≡ done (true, key)
        → (irc_user_by_name assoc slist slist after nick ≡ done (some p))
          ↔ Has assoc slist slist after key p)
perform_all-Has_example = perform_all-Has assoc slist slist [] empty calls no_keys calls-AreLegal
