-- ===== src/Apphost/UiHost/Mirror.antt =====
-- The picture of the client, src/client/pixel_renderer.cpp, and the buffer of the window that
-- src/apphost/ui_host_impl.cpp keeps.
use protocol_design.Prelude.{
  ℕ, suc, ◌+◌, ◌-◌, ◌*◌, ◌^◌, ◌≤◌, ◌<◌, ◌≡◌, refl, sym, ap, subst, ◌∙◌, List, [], ◌∷◌, ◌++◌, Bool,
  true, false, not, ◌&&◌, ◌||◌, some, if◌then◌else◌, leb, ltb, length, get_or, arith, Bool-cases,
  All, u32, inl, inr,
}
use native.Mathlib.Nat.{mul-le-mul}
use protocol_design.Prelude.Int.{ℤ, pos, less, magnitude, smaller, larger}
use protocol_design.Common.Rect.{UiRect, RectOps, IsRectOps, rect}
use protocol_design.Apphost.PixelCapture.{pack_pixel_data_rect}
use protocol_design.Apphost.UiHost.{
  State, Plugin, WindowRuntime, clip, dispatch_draw_and_send, on_window_damage,
}
use protocol_design.Apphost.UiHost.Calls.{with_window-some, if-false}
use protocol_design.Client.Renderer.{PixelRenderer, Colors, ok, apply_pixel_data_body, copy_rows}
use protocol_design.Client.Renderer.Rows.{IsQuad, IsPixel}
use protocol_design.Client.Renderer.Frames.{IsFrame, frame, room}
use protocol_design.Client.Renderer.Painting.{get_or-copy_rows, length-copy_rows}

abbrev pub is_inside : ℕ → ℕ → ℕ → ℕ → ℕ → ℕ → Bool
is_inside left top right bottom x y = (leb top y && ltb y bottom) && (leb left x && ltb x right)

-- A plugin that, in this state, draws pixels of 32 bits.
abbrev pub DrawsPixels : {P : Type 0} → Plugin P → P → Type 0
DrawsPixels plugin p =
    (pixels : List ℕ) (w h : ℕ) (q : UiRect)
    → All IsPixel pixels
    → All IsPixel (plugin.on_draw pixels w h q p).0

-- When the plugin is asked to paint this rectangle of the window, it may draw all of the window, but what it
-- draws outside of the rectangle is what was there.
abbrev pub KeepsOutside : {P : Type 0} → Plugin P → P → WindowRuntime → ℕ → ℕ → ℕ → ℕ → Type 0
KeepsOutside plugin p w l t r b =
    (x y : ℕ)
    → x < w.width
    → y < w.height
    → is_inside l t r b x y ≡ false
    → get_or (plugin.on_draw w.pixels w.width w.height (rect l t r b) p).0 (y * w.width + x) 0
      ≡ get_or w.pixels (y * w.width + x) 0

-- A rectangle that covers the window has no outside.
pub KeepsOutside-whole :
    {P : Type 0} (plugin : Plugin P) (p : P) (w : WindowRuntime)
    → KeepsOutside plugin p w 0 0 w.width w.height
KeepsOutside-whole plugin p w x y hx hy out = absurd (ground (arith, out, hx, hy))

-- A host whose window `w` the renderer `p` shows, pixel by pixel, as of the last frame.
pub record IsMirrored {P : Type 0} (s : State P) (w : WindowRuntime) (p : PixelRenderer)
    : Type 0 where
  pub window_ok : s.window ≡ some w
  pub alive : w.destroyed ≡ false
  pub handled : w.has_handler ≡ true
  pub sends : s.has_sink ≡ true
  pub same_width : p.width ≡ w.width
  pub same_height : p.height ≡ w.height
  pub width_ok : w.width < 2 ^ 31
  pub height_ok : w.height < 2 ^ 31
  pub area_ok : w.width * w.height * 4 < 2 ^ 32
  pub backed : length p.pixels ≡ p.width * p.height
  pub same_seq : p.last_frame_seq ≡ s.frame_seq
  pub pixels_ok : All IsPixel w.pixels
  pub agrees :
      (x y : ℕ)
      → x < w.width
      → y < w.height
      → get_or p.pixels (y * w.width + x) 0 ≡ get_or w.pixels (y * w.width + x) 0

-- A frame goes out, which the renderer accepts, and after which it shows the window again.
abbrev pub Updates : {P : Type 0} → RectOps → Colors → State P → PixelRenderer → State P → Type 0
Updates ops colors s p t =
    (body : List ℕ) × ((t.frames ≡ s.frames ++ (some body ∷ []))
      × (((apply_pixel_data_body ops colors body p).0 ≡ ok)
          × ((w : WindowRuntime) × IsMirrored t w (apply_pixel_data_body ops colors body p).1)))

magnitude-less :
    (a b : ℤ) (n : ℕ)
    → less (larger a (pos 0)) (smaller b (pos n)) ≡ true
    → magnitude (larger a (pos 0)) < magnitude (smaller b (pos n))
magnitude-less a b n h = ground (arith, h)

magnitude_le : (b : ℤ) (n : ℕ) → magnitude (smaller b (pos n)) ≤ n
magnitude_le b n = ground arith

module _ {P : Type 0} (little : Bool) (plugin : Plugin P) (ops : RectOps) (laws : IsRectOps ops)
    (colors : Colors) (quad : IsQuad colors) (s : State P) (draws : DrawsPixels plugin s.plugin)
    (w : WindowRuntime) (p : PixelRenderer) (m : IsMirrored s w p)
    (seq_ok : suc s.frame_seq < 2 ^ 32) where
  area_le : (l t r b : ℕ) → r ≤ w.width → b ≤ w.height → (r - l) * (b - t) * 4 < 2 ^ 32
  area_le l t r b hr hb = omega (
    arith,
    m.area_ok,
    mul-le-mul {n₁ = r - l} {m₁ = b - t} {n₂ = w.width} {m₂ = w.height} (omega arith) (omega arith),
  )

  module _ (l t r b : ℕ) (hl : l < r) (ht : t < b) (hr : r ≤ w.width) (hb : b ≤ w.height)
      (outside : KeepsOutside plugin s.plugin w l t r b) where
    seq : ℕ
    seq = u32 (s.frame_seq + 1)

    drawn : List ℕ × P
    drawn = plugin.on_draw w.pixels w.width w.height (rect l t r b) s.plugin

    framed : IsFrame p seq l t r b
    unfolding seq
    framed = record {
      ordered_x = hl;
      ordered_y = ht;
      fits_x = omega (arith, m.same_width);
      fits_y = omega (arith, m.same_height);
      width_ok = omega (arith, m.same_width, m.width_ok);
      height_ok = omega (arith, m.same_height, m.height_ok);
      seq_ok = omega (arith, seq_ok);
      fresh = omega (arith, m.same_seq, seq_ok);
      size_ok = area_le l t r b hr hb;
      backed = m.backed;
    }

    valid : All IsPixel drawn.0
    unfolding drawn
    valid = draws w.pixels w.width w.height (rect l t r b) m.pixels_ok

    -- The host after the frame.
    after : State P
    after = record s {
      plugin = drawn.1;
      window = some (record w { pixels = drawn.0 });
      frame_seq = seq;
      frames = s.frames ++ (pack_pixel_data_rect little drawn.0 w.width l t r b seq ∷ []);
    }

    painted : PixelRenderer
    painted = record p {
      last_frame_seq = seq;
      pixels = copy_rows (b - t) t w.width p.width l (r - l) drawn.0 p.pixels;
    }

    painted-agrees :
        (x y : ℕ)
        → x < w.width
        → y < w.height
        → get_or painted.pixels (y * w.width + x) 0 ≡ get_or drawn.0 (y * w.width + x) 0
    unfolding painted drawn
    painted-agrees x y hx hy =
        let width_of : p.width ≡ w.width = m.same_width in
        let inside = (leb t y && ltb y (t + (b - t))) && (leb l x && ltb x (l + (r - l))) in
        let copied : get_or painted.pixels (y * p.width + x) 0 ≡ (
            if inside
            then get_or drawn.0 (y * w.width + x) 0
            else get_or p.pixels (y * p.width + x) 0) =
          get_or-copy_rows (b - t) t w.width p.width l (r - l) drawn.0 p.pixels x y
            (omega (arith, width_of)) (omega (arith, width_of))
            (room little ops laws colors quad drawn.0 w.width valid p seq l t r b framed) in
        let moved =
          subst
            (λ n. get_or painted.pixels (y * n + x) 0 ≡ (
              if inside then get_or drawn.0 (y * w.width + x) 0 else get_or p.pixels (y * n + x) 0))
            width_of copied in
        elim (Bool-cases inside) [
          | inl in_it ↦
              moved
              ∙ ap
                  (λ c.
                    if c
                    then get_or drawn.0 (y * w.width + x) 0
                    else get_or p.pixels (y * w.width + x) 0)
                  in_it
          | inr out_of_it ↦
              moved
              ∙ ap
                  (λ c.
                    if c
                    then get_or drawn.0 (y * w.width + x) 0
                    else get_or p.pixels (y * w.width + x) 0)
                  out_of_it
              ∙ m.agrees x y hx hy
              ∙ sym (outside x y hx hy (ground (arith, out_of_it)))
        ]

    mirrored : IsMirrored after (record w { pixels = drawn.0 }) painted
    unfolding after painted
    mirrored = record {
      window_ok = refl;
      alive = m.alive;
      handled = m.handled;
      sends = m.sends;
      same_width = m.same_width;
      same_height = m.same_height;
      width_ok = m.width_ok;
      height_ok = m.height_ok;
      area_ok = m.area_ok;
      backed = length-copy_rows (b - t) t w.width p.width l (r - l) drawn.0 p.pixels ∙ m.backed;
      same_seq = refl;
      pixels_ok = valid;
      agrees = painted-agrees;
    }

    dispatched : dispatch_draw_and_send little plugin l t r b s ≡ after
    unfolding dispatch_draw_and_send after seq drawn
    dispatched =
        with_window-some s _ m.window_ok
        ∙ if-false (w.destroyed || not w.has_handler) s _ (ground (arith, m.alive, m.handled))
        ∙ if-false (not s.has_sink) _ after (ap not m.sends)

    dispatch_draw_and_send-Updates :
        Updates ops colors s p (dispatch_draw_and_send little plugin l t r b s)
    unfolding after painted
    dispatch_draw_and_send-Updates =
        let (body, (packed, applied)) =
          frame little ops laws colors quad drawn.0 w.width valid p seq l t r b framed in
        subst (λ z. Updates ops colors s p z) (sym dispatched)
          (
            body,
            (
              ap (λ z. s.frames ++ (z ∷ [])) packed,
              (
                ap (λ z. z.0) applied,
                (
                  record w { pixels = drawn.0 },
                  subst (λ z. IsMirrored after (record w { pixels = drawn.0 }) z)
                      (sym (ap (λ z. z.1) applied)) mirrored,
                ),
              ),
            ),
          )

  -- A call of `Damage` whose rectangle has a pixel in the window sends a frame, which the client's
  -- renderer accepts, and which makes its picture the buffer of the window again. The plugin may
  -- draw all of the window, but what it draws outside of the damaged rectangle is what was there,
  -- which asks nothing if the rectangle covers the window. It draws pixels of 32 bits; the window
  -- is alive, has its handler and a size that fits a frame, the host has a sink, the client showed
  -- the window before the call, and the counter of frames is not at its last number.
  pub on_window_damage-Updates :
      (q : UiRect)
      → less (clip w q).l (clip w q).r ≡ true
      → less (clip w q).t (clip w q).b ≡ true
      → KeepsOutside plugin s.plugin w
          (magnitude (clip w q).l)
          (magnitude (clip w q).t)
          (magnitude (clip w q).r)
          (magnitude (clip w q).b)
      → Updates ops colors s p (on_window_damage little plugin q s)
  unfolding on_window_damage
  on_window_damage-Updates q hx hy outside =
      let c = clip w q in
      let damaged : on_window_damage little plugin q s
          ≡ dispatch_draw_and_send little plugin (magnitude c.l) (magnitude c.t) (magnitude c.r)
              (magnitude c.b) s =
        with_window-some s _ m.window_ok
        ∙ if-false (not (less c.l c.r) || not (less c.t c.b)) s _ (ground (arith, hx, hy)) in
      subst (λ z. Updates ops colors s p z) (sym damaged)
        (dispatch_draw_and_send-Updates (magnitude c.l) (magnitude c.t) (magnitude c.r)
          (magnitude c.b) (magnitude-less q.l q.r w.width hx) (magnitude-less q.t q.b w.height hy)
          (magnitude_le q.r w.width) (magnitude_le q.b w.height) outside)
