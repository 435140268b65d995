-- ===== src/Settings/Writing.antt =====
-- src/core/settings/write.c: what the sections of the config file are written from, line by line.
mod Put
unfoldable pub use Put.*
use g0wm.Common.{List, [], ◌∷◌}
use g0wm.Settings.Types.{lit}

-- `settings_write_windows`
abbrev pub windows_written : List Written
windows_written =
    put (lit "borderpx") (lit "border_width") written_uint
    ∷ put (lit "cornerstyle") (lit "corner_style") (written_name (lit "settings_corner_styles"))
    ∷ put (lit "cornerpx") (lit "corner_radius") written_uint
    ∷ put (lit "gaps") (lit "gaps") written_int
    ∷ put (lit "gappx") (lit "gap_size") written_uint
    ∷ put (lit "smartgaps") (lit "smart_gaps") written_bool
    ∷ put (lit "titlebar") (lit "title_bar") written_bool
    ∷ put (lit "titlepadding") (lit "title_padding") written_uint
    ∷ put (lit "titlecenter") (lit "title_center") written_bool
    ∷ put (lit "titleclose") (lit "title_close") written_bool
    ∷ put (lit "titleclosecolor") (lit "title_close_color") written_hex
    ∷ put (lit "privatecolor") (lit "private_color") written_hex
    ∷ put (lit "privateround") (lit "private_round") written_number
    ∷ put (lit "alwaysprivate") (lit "always_private") written_bool
    ∷ put (lit "publiccolor") (lit "public_color") written_hex
    ∷ put (lit "privatetitle") (lit "private_title") written_string
    ∷ put (lit "movethreshold") (lit "move_threshold") written_int
    ∷ put (lit "movesnap") (lit "move_snap") written_int
    ∷ []

-- `settings_write_bar`
abbrev pub bar_written : List Written
bar_written =
    put (lit "showbar") (lit "bar_enabled") written_bool
    ∷ put (lit "topbar") (lit "bar_top") written_bool
    ∷ put (lit "barwintitle") (lit "bar_window_title") written_bool
    ∷ put (lit "bartagdots") (lit "bar_tag_dots") written_bool
    ∷ put (lit "bartagdotsize") (lit "bar_tag_dot_size") written_uint
    ∷ put (lit "bartagdotgap") (lit "bar_tag_dot_gap") written_uint
    ∷ put (lit "bartagdotwidth") (lit "bar_tag_dot_width") written_number
    ∷ put (lit "bartagdotround") (lit "bar_tag_dot_round") written_number
    ∷ put (lit "barurgentpulse") (lit "bar_urgent_pulse") written_uint
    ∷ put (lit "barltsymbol") (lit "bar_layout_symbol") written_bool
    ∷ put (lit "barboxradius") (lit "bar_box_radius") written_uint
    ∷ put (lit "barpadding") (lit "bar_padding") written_uint
    ∷ put (lit "barheight") (lit "bar_height") written_number
    ∷ put (lit "barsinglemon") (lit "bar_single_monitor") written_bool
    ∷ put (lit "barstatus") (lit "bar_status") (written_name (lit "settings_bar_statuses"))
    ∷ put (lit "showsystray") (lit "systray_enabled") written_bool
    ∷ put (lit "systrayspacing") (lit "systray_spacing") written_uint
    ∷ put (lit "systraypadding") (lit "systray_padding") written_uint
    ∷ put (lit "systrayiconsize") (lit "systray_icon_size") written_uint
    ∷ put (lit "shownotifications") (lit "notifications_enabled") written_bool
    ∷ put (lit "notification_timeout") (lit "notification_timeout") written_uint
    ∷ put (lit "notification_linewidth") (lit "notification_line_width") written_uint
    ∷ put (lit "notification_lineradius") (lit "notification_line_radius") written_uint
    ∷ put (lit "notification_actionsign") (lit "notification_action_sign") written_string
    ∷ put (lit "runner_placeholder") (lit "runner_placeholder") written_string
    ∷ put (lit "runner_max_candidates") (lit "runner_max_candidates") written_uint
    ∷ put (lit "runner_pillheight") (lit "runner_pill_height") written_uint
    ∷ put (lit "runner_pillpadding") (lit "runner_pill_padding") written_uint
    ∷ put (lit "runner_pillround") (lit "runner_pill_round") written_number
    ∷ put (lit "runner_fuzzy") (lit "runner_fuzzy") written_bool
    ∷ put (lit "runner_icons") (lit "runner_icons") (written_name (lit "settings_runner_icons"))
    ∷ put (lit "runner_iconsize") (lit "runner_icon_size") written_uint
    ∷ put (lit "runner_iconround") (lit "runner_icon_round") written_number
    ∷ put (lit "runner_iconborder") (lit "runner_icon_border") written_uint
    ∷ put (lit "runner_history_size") (lit "runner_history_size") written_uint
    ∷ put (lit "runner_shell") (lit "runner_shell") written_string
    ∷ put (lit "runner_terminal") (lit "runner_terminal") written_string
    ∷ put (lit "runner_termprefix") (lit "runner_terminal_prefix") written_string
    ∷ put (lit "runner_runprefix") (lit "runner_run_prefix") written_string
    ∷ put (lit "runner_calcprefix") (lit "runner_calc_prefix") written_string
    ∷ put (lit "runner_searchprefix") (lit "runner_search_prefix") written_string
    ∷ put (lit "runner_searchurl") (lit "runner_search_url") written_string
    ∷ put (lit "runner_windowprefix") (lit "runner_window_prefix") written_string
    ∷ put (lit "runner_tagprefix") (lit "runner_tag_prefix") written_string
    ∷ put (lit "runner_files") (lit "runner_files") written_bool
    ∷ put (lit "runner_paths") (lit "runner_paths") written_string
    ∷ put (lit "runner_calc_precision") (lit "runner_calc_precision") written_uint
    ∷ []

-- `settings_write_opacity`, and its part for INTEGRATED_BACKGROUND.
abbrev pub opacity_written : List Written
opacity_written =
    put (lit "opacity_enabled") (lit "opacity_enabled") written_bool
    ∷ put (lit "opacity_focus") (lit "opacity_focus") written_number
    ∷ put (lit "opacity_unfocus") (lit "opacity_unfocus") written_number
    ∷ put (lit "opacity_deco") (lit "opacity_decorations") written_number
    ∷ []

abbrev pub blur_written : List Written
blur_written =
    put (lit "opacity_type") (lit "opacity_type") (written_name (lit "settings_opacity_kinds"))
    ∷ put (lit "blur_radius") (lit "blur_radius") written_uint
    ∷ put (lit "blur_passes") (lit "blur_passes") written_uint
    ∷ put (lit "blur_saturation") (lit "blur_saturation") written_number
    ∷ put (lit "blur_brightness") (lit "blur_brightness") written_number
    ∷ []

-- The keymap of `settings_write_input`; what is written before it and behind it.
abbrev pub xkb_written : List Written
xkb_written =
    put (lit "rules") (lit "xkb_rules.rules") written_string
    ∷ put (lit "model") (lit "xkb_rules.model") written_string
    ∷ put (lit "layout") (lit "xkb_rules.layout") written_string
    ∷ put (lit "variant") (lit "xkb_rules.variant") written_string
    ∷ put (lit "options") (lit "xkb_rules.options") written_string
    ∷ []

abbrev pub input_first_written : List Written
input_first_written = put (lit "sloppyfocus") (lit "sloppy_focus") written_bool ∷ []

abbrev pub input_written : List Written
input_written =
    put (lit "repeat_rate") (lit "repeat_rate") written_int
    ∷ put (lit "repeat_delay") (lit "repeat_delay") written_int
    ∷ put (lit "cursor_theme") (lit "cursor_theme") written_string
    ∷ put (lit "cursor_size") (lit "cursor_size") written_int
    ∷ put (lit "hide_cursor_when_typing") (lit "hide_cursor_when_typing") written_bool
    ∷ put (lit "tap_to_click") (lit "tap_to_click") written_bool
    ∷ put (lit "tap_and_drag") (lit "tap_and_drag") written_bool
    ∷ put (lit "drag_lock") (lit "drag_lock") written_bool
    ∷ put (lit "natural_scrolling") (lit "natural_scrolling") written_bool
    ∷ put (lit "disable_while_typing") (lit "disable_while_typing") written_bool
    ∷ put (lit "left_handed") (lit "left_handed") written_bool
    ∷ put (lit "middle_button_emulation") (lit "middle_button_emulation") written_bool
    ∷ put (lit "scroll_method") (lit "scroll_method") (written_name (lit "settings_scroll_methods"))
    ∷ put (lit "click_method") (lit "click_method") (written_name (lit "settings_click_methods"))
    ∷ put (lit "send_events_mode") (lit "send_events_mode")
        (written_name (lit "settings_send_events"))
    ∷ put (lit "accel_profile") (lit "accel_profile") (written_name (lit "settings_accel_profiles"))
    ∷ put (lit "accel_speed") (lit "accel_speed") written_number
    ∷ put (lit "touchpad_natural_scrolling") (lit "touchpad_natural_scrolling") written_bool
    ∷ put (lit "touchpad_accel_profile") (lit "touchpad_accel_profile")
        (written_name (lit "settings_accel_profiles"))
    ∷ put (lit "touchpad_accel_speed") (lit "touchpad_accel_speed") written_number
    ∷ put (lit "pinchzoom_mod") (lit "pinch_zoom_modifier") written_mods
    ∷ put (lit "button_map") (lit "tap_button_map") (written_name (lit "settings_button_maps"))
    ∷ put (lit "tablet_output") (lit "tablet_output") written_string
    ∷ put (lit "tablet_left_handed") (lit "tablet_left_handed") written_bool
    ∷ put (lit "touch_output") (lit "touch_output") written_string
    ∷ []

-- `settings_write_misc`
abbrev pub misc_written : List Written
misc_written =
    put (lit "log_level") (lit "log_level") (written_name (lit "settings_log_levels"))
    ∷ put (lit "bypass_surface_visibility") (lit "bypass_surface_visibility") written_bool
    ∷ put (lit "allow_tearing") (lit "allow_tearing") written_bool
    ∷ put (lit "auto_vrr") (lit "auto_vrr") written_bool
    ∷ []
