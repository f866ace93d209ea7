-- ===== src/Lib.antt =====
-- BitlBee, an IRC server that is a gateway to instant messaging networks: models of its core in C,
-- and proofs about them.
--
-- The parts, and how they interact. A client's bytes are collected in a read buffer, which
-- `irc_process` cuts into lines, parses and hands to the commands, which `irc_exec` guards
-- (Irc/Exec) and of which some lead to the login (Irc/Login); what is answered is queued as lines
-- that the write event sends (Irc). The users that the client sees are kept in a sorted list and a
-- hash table (Irc/User) and in channels (Irc/Channel); they have nicks made from the buddies'
-- handles and names (Nick). What can be configured is a list of settings with defaults and
-- evaluators (Settings), which the nicks' format and the questions' order are taken from. Questions
-- of the networks wait in a list until the user answers (Query), in the control channel, where a
-- line is split into words and the first one chooses a command (Root). Accounts are kept by storage
-- back ends (Storage), with passwords encrypted (Arc). The program's own configuration and the
-- defaults of settings are read (Conf) from a file of lines (Ini), which may name a proxy by a URL
-- (Url). Jabber's packets are trees of elements (Xml). The rest are encodings of text that all parts
-- use (Base64, Misc).
--
-- Which file models what. A C string is the list of its bytes, a `char *` that may be null an
-- Option; a function that changes a string or a structure returns the new one.
--   Common       shared names: tests, lists, bytes, `Outcome` for code that may be undefined
--   Stdio        the C library's "%d", "%02X" and "%2x"
--   Glib         the parameters for GLib: comparisons without regard to case, hash tables, lists
--                (Slist)
--   Irc/Line     irc.c: irc_parse_line, irc_build_line
--   Irc/Buffer   irc.c: irc_process, irc_splitlines
--   Irc/Read     bitlbee.c: bitlbee_io_current_client_read
--   Irc/Send     irc.c: irc_vawrite, irc_flush; bitlbee.c: bitlbee_io_current_client_write
--   Irc/Umode    irc.c: irc_umode_set
--   Irc/Exec     irc_commands.c: the table irc_commands, irc_exec
--   Irc/Login    irc_commands.c: irc_cmd_pass, irc_cmd_user, irc_cmd_nick, irc_cmd_quit,
--                irc_cmd_ping; irc.c: irc_check_login, irc_setpass
--   Irc/User     irc_user.c: irc_user_new, irc_user_free, irc_user_by_name, irc_user_set_nick,
--                irc_user_quit
--   Irc/Name     irc_channel.c: irc_channel_name_ok, irc_channel_name_strip,
--                irc_channel_name_cmp
--   Irc/Channel  irc_channel.c: irc_channel_add_user, irc_channel_del_user,
--                irc_channel_has_user, irc_channel_user_set_mode, irc_channel_update_ops;
--                irc_send.c: irc_send_join
--   Irc/Names    irc_send.c: irc_send_names
--   Irc/Channels irc_channel.c: irc_channel_new, irc_channel_by_name, irc_channel_get
--   Settings     set.c: set_add, set_find, set_getstr, set_setstr, set_del, set_reset, the
--                evaluators; protocols/account.c: the loop over them in account_del
--   Nick         nick.c: nick_strip, nick_ok, nick_lc, nick_uc, nick_cmp, nick_dup, nick_dedupe;
--                Nick/Gen: nick_gen; Nick/Get: nick_get; Nick/Store: nick_set_raw, nick_saved,
--                nick_del
--   Account/Tags  protocols/account.c: account_by_tag, the tag that account_add chooses
--   Account/Reconnect  protocols/account.c: account_reconnect_delay_parse,
--                account_reconnect_delay
--   Query        query.c: all functions; the calls of callbacks are events in a log
--   Root         root_commands.c: the table root_commands, root_command, root_command_string;
--                lib/misc.c: split_command_parts
--   Storage      storage.c: storage_init, storage_check_pass, storage_load, storage_save,
--                storage_remove
--   Ini          lib/ini.c: ini_open, ini_read
--   Conf         conf.c: conf_loadini, conf_loaddefaults
--   Url          lib/url.c: url_set
--   Xml          lib/xmltree.c: the parser's calls, xt_dup, xt_to_string; Xml/Edit: xt_new_node,
--                xt_add_child, xt_insert_child, xt_add_attr, xt_remove_attr, xt_find_attr,
--                xt_find_node, xt_find_path, xt_strip_text, xt_cleanup
--   Arc          lib/arc.c: arc_keymaker, arc_getbyte, arc_encode, arc_decode
--   Base64       lib/base64.c: base64_encode_real, base64_decode_real, the sizes allocated
--   Misc         lib/misc.c: is_bool, bool2int (Bools), http_encode, http_decode (Http),
--                strip_html, escape_html (Html), word_wrap (Wrap), md5_verify_password (Md5)
-- The files named Examples hold runs and the theorems at concrete inputs.
--
-- Bounds and fuel. `nick_gen` runs on the length of the format and one more, and a theorem shows
-- that it ends; `nick_dedupe` has the 256 rounds of the source; the loop of `account_del` needs a
-- round for each setting; `word_wrap` runs on the length of the text and one more, which suffices
-- for lines with room for a character. `ini_read` has a round for each line, which takes a byte at
-- least, so the bytes that are left and one more suffice, as they do for the loops over it. All else
-- is structural recursion. A loop that skips ahead in a string (`strip_html`, `http_decode`) counts
-- the bytes it still jumps over. A `char` is signed where the source uses it as a number.
--
-- Users and channels have addresses, which are numbers, and a store says which user is at an
-- address; what `g_new0` returns is an argument.
--
-- Parameters. GLib's comparison, hash table and sorted lists, with their documented behaviour; the
-- storage back ends and the plugins; `g_strsplit_set` and the scanner of sizes in conf.c; random
-- bytes; md5; which channels are set to be joined; what the commands of the control channel
-- do, and in irc_exec those that only a client that is logged in can use; the charset conversion, the commands and the warnings of
-- a client; the evaluators of settings, which may change the list that they belong to; what `send` and `write` return; the nicks that are taken.
--
-- Not modelled. Sockets, timers, TLS and processes (lib/events_*.c, lib/ssl_*.c, lib/proxy.c,
-- unix.c, ipc.c) are input and output, as is conf_load's reading of the command line. The networks'
-- protocols are dialogues with their servers, and libfaim, libyahoo2, md5, sha1 and des are copies
-- of other projects. The commands of the control channel (the rest of root_commands.c) are dialogue.
-- Of the accounts there are only the tags and the delay of reconnects; the answers of the commands
-- are kept apart from the messages about users and channels, so their order is not modelled; buddies
-- are only seen through the functions above. Of the channels, topics are only sent, and their
-- settings, `irc_channel_free` and `irc_channel_set_mode` are left out; of the XML trees the
-- handlers by path (xt_handle) and the debug output.
mod Common
pub mod Stdio
pub mod Glib
pub mod Base64
pub mod Arc
pub mod Storage
pub mod Ini
pub mod Xml
pub mod Url
pub mod Conf
pub mod Misc
pub mod Settings
pub mod Nick
pub mod Irc
pub mod Query
pub mod Root
pub mod Account
