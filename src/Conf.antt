-- ===== src/Conf.antt =====
-- conf.c: the configuration file.
pub mod Defaults
mod Examples
use bitl_steam.Common.{
  ℕ, suc, Bool, true, false, Option, none, some, List, [], ◌∷◌, Bytes, codes, take, if◌then◌else◌,
}
use bitl_steam.Common.Outcome.{Outcome, done, ◌>>=◌}
use bitl_steam.Stdio.{ℤ, pos, negsuc, scan_int}
use bitl_steam.Glib.{Glib}
use bitl_steam.Ini.{Entry, Ini, size, all_entries}
use bitl_steam.Settings.{Setting, modify, find}
use bitl_steam.Url.{Proto, http, https, socks4, socks5, Url, url_set}

pub data Runmode : Type 0 where
  runmode_daemon runmode_forkdaemon runmode_inetd : Runmode

pub data Authmode : Type 0 where
  authmode_open authmode_closed authmode_registered : Authmode

-- `proxytype`
pub data Proxytype : Type 0 where
  proxy_none proxy_http proxy_socks4 proxy_socks5 : Proxytype

-- `conf_t`, as far as the file sets it, and the proxy's global variables. `none` is a null pointer.
pub record Conf : Type 0 where
  pub iface_in : Option Bytes
  pub iface_out : Option Bytes
  pub port : Option Bytes
  pub runmode : Runmode
  pub authmode : Authmode
  pub auth_pass : Option Bytes
  pub oper_pass : Option Bytes
  pub hostname : Option Bytes
  pub configdir : Option Bytes
  pub pidfile : Option Bytes
  pub motdfile : Option Bytes
  pub primary_storage : Option Bytes
  pub migrate_storage : List Bytes
  pub ping_interval : ℤ
  pub ping_timeout : ℤ
  pub user : Option Bytes
  pub ft_max_size : ℕ
  pub ft_max_kbps : ℤ
  pub ft_listen : Option Bytes
  pub protocols : List Bytes
  pub cafile : Option Bytes
  pub proxyhost : Bytes
  pub proxyuser : Bytes
  pub proxypass : Bytes
  pub proxyport : ℤ
  pub proxytype : Proxytype

-- What becomes of the file behind a line: it goes on, or it ends with the result 0.
pub data Progress : Type 0 where
  goes_on refused : Conf → Progress

-- `if( sscanf( ini->value, "%d", &i ) != 1 ) return 0;`
unfoldable pub with_int : Conf → Option (Outcome ℤ) → (ℤ → Conf) → Outcome Progress
with_int conf none f = done (refused conf)
with_int conf (some n) f = n >>= λ i. done (goes_on (f i))

-- The same for the "%zu" of a `size_t`, of which `scan_size` is the scanner.
unfoldable pub with_size : Conf → Option (Outcome ℕ) → (ℕ → Conf) → Outcome Progress
with_size conf none f = done (refused conf)
with_size conf (some n) f = n >>= λ i. done (goes_on (f i))

-- An HTTPS proxy leaves the type as it was.
unfoldable pub proxytype_of : Proto → Proxytype → Proxytype
proxytype_of http old = proxy_http
proxytype_of https old = old
proxytype_of socks4 old = proxy_socks4
proxytype_of socks5 old = proxy_socks5

-- The variables are arrays of 128 bytes. A text of 128 or more characters leaves no room for a
-- closing zero, so that it does not end there.
unfoldable pub with_url : Conf → Option (Bool × Url) → Progress
with_url conf none = refused conf
with_url conf (some (false, url)) = refused conf
with_url conf (some (true, url)) = goes_on (record conf {
  proxyhost = take 128 url.host;
  proxyuser = take 128 url.user;
  proxypass = take 128 url.pass;
  proxyport = url.port;
  proxytype = proxytype_of url.proto conf.proxytype;
})

module _ (g : Glib) where
  unfoldable pub runmode_of : Bytes → Runmode
  runmode_of value =
      if g.strcasecmp value (codes "daemon")
      then runmode_daemon
      else if g.strcasecmp value (codes "forkdaemon")
      then runmode_forkdaemon
      else runmode_inetd

  unfoldable pub authmode_of : Bytes → Authmode
  authmode_of value =
      if g.strcasecmp value (codes "registered")
      then authmode_registered
      else if g.strcasecmp value (codes "closed")
      then authmode_closed
      else authmode_open

  -- A line of [settings]. `split` is `g_strsplit_set` with blanks, tabs, commas and semicolons.
  unfoldable pub conf_setting :
      (Bytes → List Bytes) → (Bytes → Option (Outcome ℕ)) → Conf → Bytes → Bytes → Outcome Progress
  conf_setting split scan_size conf key value =
      if g.strcasecmp key (codes "runmode")
      then done (goes_on (record conf { runmode = runmode_of value }))
      else if g.strcasecmp key (codes "pidfile")
      then done (goes_on (record conf { pidfile = some value }))
      else if g.strcasecmp key (codes "daemoninterface")
      then done (goes_on (record conf { iface_in = some value }))
      else if g.strcasecmp key (codes "daemonport")
      then done (goes_on (record conf { port = some value }))
      else if g.strcasecmp key (codes "clientinterface")
      then done (goes_on (record conf { iface_out = some value }))
      else if g.strcasecmp key (codes "authmode")
      then done (goes_on (record conf { authmode = authmode_of value }))
      else if g.strcasecmp key (codes "authpassword")
      then done (goes_on (record conf { auth_pass = some value }))
      else if g.strcasecmp key (codes "operpassword")
      then done (goes_on (record conf { oper_pass = some value }))
      else if g.strcasecmp key (codes "hostname")
      then done (goes_on (record conf { hostname = some value }))
      else if g.strcasecmp key (codes "configdir")
      then done (goes_on (record conf { configdir = some value }))
      else if g.strcasecmp key (codes "motdfile")
      then done (goes_on (record conf { motdfile = some value }))
      else if g.strcasecmp key (codes "account_storage")
      then done (goes_on (record conf { primary_storage = some value }))
      else if g.strcasecmp key (codes "account_storage_migrate")
      then done (goes_on (record conf { migrate_storage = split value }))
      else if g.strcasecmp key (codes "pinginterval")
      then with_int conf (scan_int value) (λ i. record conf { ping_interval = i })
      else if g.strcasecmp key (codes "pingtimeout")
      then with_int conf (scan_int value) (λ i. record conf { ping_timeout = i })
      else if g.strcasecmp key (codes "proxy")
      then (url_set g value >>= λ r. done (with_url conf r))
      else if g.strcasecmp key (codes "user")
      then done (goes_on (record conf { user = some value }))
      else if g.strcasecmp key (codes "ft_max_size")
      then with_size conf (scan_size value) (λ n. record conf { ft_max_size = n })
      else if g.strcasecmp key (codes "ft_max_kbps")
      then with_int conf (scan_int value) (λ i. record conf { ft_max_kbps = i })
      else if g.strcasecmp key (codes "ft_listen")
      then done (goes_on (record conf { ft_listen = some value }))
      else if g.strcasecmp key (codes "protocols")
      then done (goes_on (record conf { protocols = split value }))
      else if g.strcasecmp key (codes "cafile")
      then done (goes_on (record conf { cafile = some value }))
      else done (refused conf)

  -- A line of another section than [settings] and [defaults] is an error.
  unfoldable pub conf_entry :
      (Bytes → List Bytes) → (Bytes → Option (Outcome ℕ)) → Conf → Entry → Outcome Progress
  conf_entry split scan_size conf e =
      if g.strcasecmp e.section (codes "settings")
      then conf_setting split scan_size conf e.key e.value
      else if g.strcasecmp e.section (codes "defaults")
      then done (goes_on conf)
      else done (refused conf)

  unfoldable pub go_on : Progress → (Conf → Outcome (ℤ × Conf)) → Outcome (ℤ × Conf)
  go_on (goes_on conf) more = more conf
  go_on (refused conf) more = done (pos 0, conf)

  unfoldable pub conf_entries :
      (Bytes → List Bytes) → (Bytes → Option (Outcome ℕ)) → List Entry → Conf → Outcome (ℤ × Conf)
  conf_entries split scan_size [] conf = done (pos 1, conf)
  conf_entries split scan_size (e ∷ l) conf =
      conf_entry split scan_size conf e >>= λ p. go_on p (conf_entries split scan_size l)

  -- The result and the configuration, which keeps what the lines in front of an error have set.
  unfoldable pub conf_loadini :
      (Bytes → List Bytes) → (Bytes → Option (Outcome ℕ)) → Option Ini → Conf → Outcome (ℤ × Conf)
  conf_loadini split scan_size none conf = done (negsuc 0, conf)
  conf_loadini split scan_size (some file) conf =
      conf_entries split scan_size (all_entries (suc (size file.cur)) file) conf

  module _ {E D : Type 0} where
    -- `s->def = g_strdup( ini->value )`
    unfoldable pub set_default :
        List (Setting E D) → Bytes → Option (ℕ × Setting E D) → List (Setting E D)
    set_default l value none = l
    set_default l value (some r) = modify l r.0 (λ s. record s { def = some value })

    unfoldable pub load_default : Entry → List (Setting E D) → List (Setting E D)
    load_default e l =
        if g.strcasecmp e.section (codes "defaults")
        then set_default l e.value (find g l e.key)
        else l

    unfoldable pub load_defaults : List Entry → List (Setting E D) → List (Setting E D)
    load_defaults [] l = l
    load_defaults (e ∷ es) l = load_defaults es (load_default e l)

    unfoldable pub conf_loaddefaults : Option Ini → List (Setting E D) → List (Setting E D)
    conf_loaddefaults none l = l
    conf_loaddefaults (some file) l = load_defaults (all_entries (suc (size file.cur)) file) l
