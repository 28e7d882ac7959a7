-- ===== src/Frame/Made.antt =====
-- The header that `ioc_generate_header` of code/ioc_connection_send.c makes.
use iocom.Base.{
  ℕ, ◌<◌, ◌≡◌, ◌∙◌, ap, ap₂, refl, sym, subst, Bool, true, false, Option, List, ◌++◌, length, done,
  Returns, returns, Returns-bind, arith,
}
use iocom.Message.{get_uint}
use iocom.Message.Numbers.{
  Width, one, two, four, two_bytes, four_bytes, flags_with, flags4_with, size, Tells, HasRoom,
  set_uint-IsStored,
}
use iocom.Frame.{
  Connection, Header, fixed_part, header, extra_part, generate_header, needs_extra, serial_to,
  frame_nr_to, start_flags, start_extra, mblk_has_two_bytes, mblk_has_four_bytes,
  addr_has_two_bytes, addr_has_four_bytes,
}
use iocom.Frame.Flags.{extra_of, flags_of, AreExtra, extra_of-AreExtra}

-- A header for an identifier and an address.
pub record IsHeader (con : Option Connection) (mblk_id addr : ℕ) (h : Header) : Type 0 where
  pub extra : Bool
  pub mblk_width : Width
  pub addr_width : Width
  pub mblk_bytes : List ℕ
  pub addr_bytes : List ℕ
  pub shape :
      h
      ≡ header (serial_to con) (
          fixed_part (serial_to con) (frame_nr_to con) (flags_of extra mblk_width addr_width)
          ++ (extra_part (extra_of extra mblk_width addr_width) ++ (mblk_bytes ++ addr_bytes)))
  pub told : AreExtra (extra_of extra mblk_width addr_width) extra mblk_width addr_width
  pub mblk_reads :
      (p : List ℕ)
      → get_uint (mblk_bytes ++ p) (two_bytes mblk_width) (four_bytes mblk_width)
        ≡ done (mblk_id, p)
  pub addr_reads :
      (p : List ℕ)
      → get_uint (addr_bytes ++ p) (two_bytes addr_width) (four_bytes addr_width) ≡ done (addr, p)
  pub mblk_size : length mblk_bytes ≡ size mblk_width
  pub addr_size : length addr_bytes ≡ size addr_width

-- A byte of extra flags leaves room for the address, whatever the identifier is.
HasRoom-flags4_with :
    (e : Bool) (w : Width) (addr : ℕ)
    → addr < 4294967296
    → HasRoom addr (start_extra e)
    → HasRoom addr (flags4_with w (start_extra e) mblk_has_four_bytes)
unfolding HasRoom flags4_with
HasRoom-flags4_with true one addr h k = h
HasRoom-flags4_with true two addr h k = h
HasRoom-flags4_with true four addr h k = h
HasRoom-flags4_with false one addr h k = k
HasRoom-flags4_with false two addr h k = k
HasRoom-flags4_with false four addr h k = k

HasRoom-start_extra :
    (e : Bool) (mblk_id addr : ℕ)
    → needs_extra mblk_id addr ≡ e
    → mblk_id < 4294967296
    → addr < 4294967296
    → HasRoom mblk_id (start_extra e) × HasRoom addr (start_extra e)
unfolding HasRoom needs_extra
HasRoom-start_extra true mblk_id addr x h k = (h, k)
HasRoom-start_extra false mblk_id addr x h k = (ground arith, ground arith)

-- `ioc_generate_header` writes no flag through OS_NULL, and its header can be read back.
pub generate_header-IsHeader :
    (con : Option Connection) (mblk_id addr : ℕ)
    → mblk_id < 4294967296
    → addr < 4294967296
    → Returns (IsHeader con mblk_id addr) (generate_header con mblk_id addr)
unfolding generate_header flags_of extra_of
generate_header-IsHeader con mblk_id addr h k =
    let e : Bool = needs_extra mblk_id addr in
    let room = HasRoom-start_extra e mblk_id addr refl h k in
    Returns-bind _
      (set_uint-IsStored mblk_id (start_flags e) mblk_has_two_bytes mblk_has_four_bytes
        (start_extra e) room.0)
      (λ m p.
        Returns-bind _
          (set_uint-IsStored addr m.flags addr_has_two_bytes addr_has_four_bytes m.flags4
            (subst (HasRoom addr) (sym p.flags4_set) (HasRoom-flags4_with e p.width addr k room.1)))
          (λ a q. returns (record {
            extra = e;
            mblk_width = p.width;
            addr_width = q.width;
            mblk_bytes = m.bytes;
            addr_bytes = a.bytes;
            shape =
                ap₂
                  (λ f x. header (serial_to con) (
                    fixed_part (serial_to con) (frame_nr_to con) f
                    ++ (extra_part x ++ (m.bytes ++ a.bytes))))
                  (q.flags_set ∙ ap (λ f. flags_with q.width f addr_has_two_bytes) p.flags_set)
                  (q.flags4_set ∙ ap (λ x. flags4_with q.width x addr_has_four_bytes) p.flags4_set);
            told =
                extra_of-AreExtra e p.width q.width p.told
                  (subst (Tells q.width) p.flags4_set q.told);
            mblk_reads = p.reads;
            addr_reads = q.reads;
            mblk_size = p.size_bytes;
            addr_size = q.size_bytes;
          })))
