-- ===== src/Lib.antt =====
-- An IRC server (ircd) and the services that run beside it (services): nickname, channel, memo and
-- operator services in a process of their own that speaks to the server. The files here model parts
-- that carry the state of both, function by function and with the names of the C code.
--
-- Base holds the shared names: Boolean tests, lists over native numbers, and the integers of a C `int`.
--
-- Dbuf (ircd/src/dbuf.c, ircd/include/dbuf.h): the byte buffers of a client's queues. A buffer is its
-- chain of blocks of 2032 bytes with `length` and `offset`; the pool is `dbufalloc`, `dbufblocks` and
-- the freelist. dbuf_put, dbuf_map, dbuf_delete, dbuf_get and dbuf_getmsg take and return both. What
-- `irc_malloc` hands out and BUFFERPOOL are parameters. Fuel: a round of `fill` or `get_loop` moves a
-- byte at least, a round of `delete_loop` deletes one, and each restart of `getmsg_loop` drops one, so
-- that the number of bytes, plus one, is enough; a read of a missing block would be `none`.
--
-- Match (ircd/src/match.c, the lower-case table of ircd/src/string.c): match and r_match. A string is the
-- list of its bytes without the NUL; the mask keeps the bytes behind the pointer. Tokens says what a
-- mask means. Fuel: a round goes on in the name or goes back with `na` moved on, so that the product
-- of the two lengths, each plus one, is enough. Collapse is collapse, written as one pass that keeps in
-- mind what it has just read. Not modelled: expr_match, which calls the regex library.
--
-- Timer (services/timer.c): timer, cancel_timer and timeralarm over the list from firstTimerItem. The
-- functions that timers call are a parameter. Fuel of the alarm: one more than the timers of the list,
-- enough as long as those functions add only timers of the future. Not modelled: dumptimer, which
-- prints, and the reuse of identifiers after an overrun beyond the step over 0.
--
-- Channel (ircd/src/channel.c): the links between channels and clients, each kept on both sides:
-- add_user_to_channel, remove_user_from_channel, sub1_from_channel, add_invite and del_invite over a
-- world that maps the numbers of channels and clients to their structures. The counters are natural
-- numbers. A channel that is freed is not `live`. have_ops, is_chan_op and has_voice read the flags of the
-- members. Not modelled: modes, topics and the commands;
-- the list and the hash table of all channels.
--
-- Ban (ircd/src/channel.c): the ban list of a channel. Rules has the bans that begin with `$`, Lists
-- is_banned, check_bquiet, add_banid, del_banid and find_banid, Access can_join and can_send. Masks are
-- compared by Match and texts by Cmp, and members are those of Channel. A client is a record of what the
-- code reads of it; genHostMask, the table of channels and the table of clients are parameters. The
-- buffers that the code shares between calls are values here. Not modelled: the messages to the client.
--
-- Whowas (ircd/src/whowas.c): the history of nicknames, a ring of as many entries as the configuration
-- says, with the reference counts of user records. get_history compares nicknames as Ban does, and the
-- flags on channels are those of Channel. Of a record that is freed it is kept that it is. Fuel of the
-- walk: the length of the ring. Not modelled: m_whowas, which prints.
--
-- ConnClass (ircd/src/class.c): the classes of connections, in a list from `classlist` by their `next`, with
-- counts of references. Fuel of a walk: the number of classes on the list, and one more for a search. atoi
-- and the default numbers are parameters.
--
-- Text (ircd/src/channel.c): clean_channelname and index_left_part, by the lower case of Match.
--
-- Cmp (ircd/src/string.c): smycmp, the comparison without regard to case, and its upper-case table, which
-- is not the one that masks are compared by. Not modelled: myncmp.
--
-- Packet (ircd/src/packet.c): dopacket, which fills a client's buffer of 512 bytes, cuts lines and counts
-- bytes and messages. The buffer is memory by index, `ch1` an index. It hands lines on to the parser, as Dbuf does for queued input; the parser,
-- what it leaves in the buffer, and exit_client are parameters over a world of any type.
--
-- Registry (services/chanserv.c, services/hash.c): the lists of the services. A record stands in a doubly
-- linked list and in the bucket of its name; addresses are numbers, NULL is 0, and pointers are
-- functions on addresses. Refine and Buckets compare them with plain lists, Lookup with a search of
-- the whole list. Fuel of a walk: the length of the list.
--
-- NickServ (services/nickserv.c, services/struct.h, services/stuff.c): users and registered nicknames in
-- the buckets of their names, and the numbers of nicknames. The LIST macros are plain lists. A
-- registration that aborts is `none`. Not modelled: deletion, which goes on into memos and the
-- resolver, and the commands.
--
-- Akill (services/akill.c): autokills, ignores and autohurts in one list, as built with ENABLE_AHURT; the
-- expiry of an entry is a timer of Timer. match of the services, strcasecmp and what the nickname services know of the one who removes
-- an entry are parameters. Not modelled: what is done to users at once, mails, listings and files.
--
-- Mask (services/stuff.c): split_userhost. Not modelled: match and genHostMask of the same file.
--
-- Passwd (services/passwd.c): toBase64 and fromBase64 with the sizes that they allocate. Not modelled: keys
-- made by MD5, and the tests of passwords.
--
-- ChanServ (services/chanserv.c): Online has the channels in use with members and bans, Register the
-- registered channels with operators and autokicks, and Register.Rights the access of a user. The state
-- is the memory by address; what is freed is written down. Counters have 32 bits. Of a user, what other
-- parts of the services answer is a parameter (`Checks`). Fuel: the number of records. Not
-- modelled: the commands and the joins that call these functions.
--
-- Clone (services/clone.c): clients by host and by user name, with triggers, rules and alerts. Rules and
-- Lists have the rules and alerts, Hosts and Signon the clients that come and go. `match` of the services
-- is a parameter, and so are the addresses that the allocation hands out; `time(NULL)` is the current
-- time. Fuel: the number of hosts, or of the user names of a host. Not modelled: listCloneAlerts, which prints.
--
-- The rest is not modelled: sockets, the resolver and send queues talk to the operating system, and the
-- command handlers of server and services, the configuration and the databases stand on these parts.
pub mod Base
pub mod ConnClass
pub mod Dbuf
pub mod Mask
pub mod Match
pub mod Timer
pub mod Whowas
pub mod Akill
pub mod Ban
pub mod ChanServ
pub mod Channel
pub mod Packet
pub mod Passwd
pub mod Text
pub mod Clone
pub mod Cmp
pub mod NickServ
pub mod Registry
