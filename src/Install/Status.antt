-- ===== src/Install/Status.antt =====
-- install_status_assign, the permission functions and the shapes that recur in install-core.c:
-- an error return, a formatted identifier, a call of the info callback.
use coreland_c_string.Base.{
  ℕ, Bool, Option, none, some, List, [], ◌∷◌, ◌++◌, String, Bytes, ℤ, lit, ltb, ◌==◌, of_bool,
  snprintf_text, take, if◌then◌else◌, to_unsigned,
}
use coreland_c_string.Install.Header.{
  Status, StatusCode, ok, error, Permissions, UserNumber, GroupNumber, fmt_uid, fmt_gid, max_msglen,
}
use coreland_c_string.Install.World.{
  M, Proc, proc, call, pure, skip, raise, return_now, Callback, modify, buffer_overflow, ◌>>=◌,
}
use coreland_c_string.Install.Platform.{Platform}

-- The text of a message with its parts between single spaces.
unfoldable pub spaced : List Bytes → Bytes
unfolding lit
spaced [] = []
spaced (t ∷ []) = t
spaced (t ∷ u ∷ ts) = t ++ (lit " " ++ spaced (u ∷ ts))

-- `install_permissions_assign`
abbrev pub install_permissions_assign : ℤ → Permissions
install_permissions_assign mode = to_unsigned mode

-- `install_permissions_compare`
abbrev pub install_permissions_compare : Permissions → Permissions → ℤ
install_permissions_compare a b = of_bool (a == b)

module _ {S : Type 0} (platform : Platform S) where
  unfoldable pub install_status_assign : StatusCode → Option Bytes → M S Status
  install_status_assign code message = proc do
    current ← call platform.error_message_current
    pure (record { status = code; message = message; error_message = some current })

  module _ {R : Type 0} where
    -- `install_status_assign (&status, INSTALL_STATUS_ERROR, text)`
    abbrev pub error_status : Bytes → Proc S R Status
    error_status text = call (install_status_assign error (some text))

    -- `install_status_assign (&status, INSTALL_STATUS_OK, NULL)`
    abbrev pub ok_status : Proc S R Status
    ok_status = call (install_status_assign ok none)

  -- An error message and a return of the status.
  abbrev pub refuse : {A : Type 0} → Bytes → Proc S Status A
  refuse text = do status ← error_status text; return_now status

  abbrev pub refuse_if : Bool → String → Proc S Status (Unit {0})
  refuse_if test text = if test then refuse (lit text) else skip

  -- A result that may be missing.
  abbrev pub or_refuse : {A : Type 0} → Option A → String → Proc S Status A
  or_refuse none text = refuse (lit text)
  or_refuse (some a) text = pure a

  module _ {R : Type 0} where
    -- `str [n] = (char) 0` after `n` characters were written to a buffer of the given size
    abbrev pub terminate : ℕ → Bytes → ℕ → Proc S R Bytes
    terminate size text n = if ltb n size then pure (take n text) else raise buffer_overflow

    -- `uid_str [platform->uid_format (uid_str, uid)] = (char) 0`
    abbrev pub format_uid : UserNumber → Proc S R Bytes
    format_uid uid = do
      formatted ← call (platform.uid_format uid)
      terminate fmt_uid formatted.0 formatted.1

    abbrev pub format_gid : GroupNumber → Proc S R Bytes
    format_gid gid = do
      formatted ← call (platform.gid_format gid)
      terminate fmt_gid formatted.0 formatted.1

-- A message to a callback, if it is set, cut to the size of the message buffer.
abbrev pub announce_to : {S R : Type 0} → Option (Callback S) → Proc S R Bytes → Proc S R (Unit {0})
announce_to none text = skip
announce_to (some info) text = do
  message ← text
  modify λ v. record v { os = info (snprintf_text max_msglen message) v.callback_data v.os }

-- `if (install_callback_info != NULL) { … }`
abbrev pub announce : {S R : Type 0} → Proc S R Bytes → Proc S R (Unit {0})
announce text w = announce_to w.callback_info text w
